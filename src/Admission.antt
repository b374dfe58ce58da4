-- ===== src/Admission.antt =====
-- The admission of proposed missions: internal/admission.
pub mod Reader
pub mod Policy
pub mod Controller
