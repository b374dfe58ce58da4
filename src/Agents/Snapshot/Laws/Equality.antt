-- ===== src/Agents/Snapshot/Laws/Equality.antt =====
-- The equality of two agents that `applyDiff` tests: internal/state/pgstore/pgstore.go.
use fracta.Common.{same, same→≡, true, both, ◌&&◌, ◌==◌, ◌==ℤ◌, ==ℤ-true, ◌≡◌, refl, arith}
use fracta.Model.{AgentStatus, agent_status_eq, AgentEntry, agent_entry_eq}

agent_status_eq-≡ : (s t : AgentStatus) → agent_status_eq s t ≡ true → s ≡ t
agent_status_eq-≡ AgentStatus.pending AgentStatus.pending h = refl
agent_status_eq-≡ AgentStatus.pending AgentStatus.queued h = cc
agent_status_eq-≡ AgentStatus.pending AgentStatus.running h = cc
agent_status_eq-≡ AgentStatus.pending AgentStatus.stopped h = cc
agent_status_eq-≡ AgentStatus.pending AgentStatus.completed h = cc
agent_status_eq-≡ AgentStatus.pending AgentStatus.failed h = cc
agent_status_eq-≡ AgentStatus.pending AgentStatus.idle h = cc
agent_status_eq-≡ AgentStatus.queued AgentStatus.pending h = cc
agent_status_eq-≡ AgentStatus.queued AgentStatus.queued h = refl
agent_status_eq-≡ AgentStatus.queued AgentStatus.running h = cc
agent_status_eq-≡ AgentStatus.queued AgentStatus.stopped h = cc
agent_status_eq-≡ AgentStatus.queued AgentStatus.completed h = cc
agent_status_eq-≡ AgentStatus.queued AgentStatus.failed h = cc
agent_status_eq-≡ AgentStatus.queued AgentStatus.idle h = cc
agent_status_eq-≡ AgentStatus.running AgentStatus.pending h = cc
agent_status_eq-≡ AgentStatus.running AgentStatus.queued h = cc
agent_status_eq-≡ AgentStatus.running AgentStatus.running h = refl
agent_status_eq-≡ AgentStatus.running AgentStatus.stopped h = cc
agent_status_eq-≡ AgentStatus.running AgentStatus.completed h = cc
agent_status_eq-≡ AgentStatus.running AgentStatus.failed h = cc
agent_status_eq-≡ AgentStatus.running AgentStatus.idle h = cc
agent_status_eq-≡ AgentStatus.stopped AgentStatus.pending h = cc
agent_status_eq-≡ AgentStatus.stopped AgentStatus.queued h = cc
agent_status_eq-≡ AgentStatus.stopped AgentStatus.running h = cc
agent_status_eq-≡ AgentStatus.stopped AgentStatus.stopped h = refl
agent_status_eq-≡ AgentStatus.stopped AgentStatus.completed h = cc
agent_status_eq-≡ AgentStatus.stopped AgentStatus.failed h = cc
agent_status_eq-≡ AgentStatus.stopped AgentStatus.idle h = cc
agent_status_eq-≡ AgentStatus.completed AgentStatus.pending h = cc
agent_status_eq-≡ AgentStatus.completed AgentStatus.queued h = cc
agent_status_eq-≡ AgentStatus.completed AgentStatus.running h = cc
agent_status_eq-≡ AgentStatus.completed AgentStatus.stopped h = cc
agent_status_eq-≡ AgentStatus.completed AgentStatus.completed h = refl
agent_status_eq-≡ AgentStatus.completed AgentStatus.failed h = cc
agent_status_eq-≡ AgentStatus.completed AgentStatus.idle h = cc
agent_status_eq-≡ AgentStatus.failed AgentStatus.pending h = cc
agent_status_eq-≡ AgentStatus.failed AgentStatus.queued h = cc
agent_status_eq-≡ AgentStatus.failed AgentStatus.running h = cc
agent_status_eq-≡ AgentStatus.failed AgentStatus.stopped h = cc
agent_status_eq-≡ AgentStatus.failed AgentStatus.completed h = cc
agent_status_eq-≡ AgentStatus.failed AgentStatus.failed h = refl
agent_status_eq-≡ AgentStatus.failed AgentStatus.idle h = cc
agent_status_eq-≡ AgentStatus.idle AgentStatus.pending h = cc
agent_status_eq-≡ AgentStatus.idle AgentStatus.queued h = cc
agent_status_eq-≡ AgentStatus.idle AgentStatus.running h = cc
agent_status_eq-≡ AgentStatus.idle AgentStatus.stopped h = cc
agent_status_eq-≡ AgentStatus.idle AgentStatus.completed h = cc
agent_status_eq-≡ AgentStatus.idle AgentStatus.failed h = cc
agent_status_eq-≡ AgentStatus.idle AgentStatus.idle h = refl

pub agent_entry_eq-≡ : (a b : AgentEntry) → agent_entry_eq a b ≡ true → a ≡ b
agent_entry_eq-≡ a b h =
    let (r12, h_objective_id) =
      both
        (same a.task b.task
          && same a.runtime_type b.runtime_type
          && same a.resume_token b.resume_token
          && same a.workspace_path b.workspace_path
          && same a.branch_name b.branch_name
          && same a.base_branch b.base_branch
          && agent_status_eq a.status b.status
          && same a.last_output b.last_output
          && a.start_time ==ℤ b.start_time
          && same a.mode b.mode
          && same a.current_intent b.current_intent
          && a.mission_id == b.mission_id)
        (same a.objective_id b.objective_id) h in
    let (r11, h_mission_id) =
      both
        (same a.task b.task
          && same a.runtime_type b.runtime_type
          && same a.resume_token b.resume_token
          && same a.workspace_path b.workspace_path
          && same a.branch_name b.branch_name
          && same a.base_branch b.base_branch
          && agent_status_eq a.status b.status
          && same a.last_output b.last_output
          && a.start_time ==ℤ b.start_time
          && same a.mode b.mode
          && same a.current_intent b.current_intent)
        (a.mission_id == b.mission_id) r12 in
    let (r10, h_current_intent) =
      both
        (same a.task b.task
          && same a.runtime_type b.runtime_type
          && same a.resume_token b.resume_token
          && same a.workspace_path b.workspace_path
          && same a.branch_name b.branch_name
          && same a.base_branch b.base_branch
          && agent_status_eq a.status b.status
          && same a.last_output b.last_output
          && a.start_time ==ℤ b.start_time
          && same a.mode b.mode)
        (same a.current_intent b.current_intent) r11 in
    let (r9, h_mode) =
      both
        (same a.task b.task
          && same a.runtime_type b.runtime_type
          && same a.resume_token b.resume_token
          && same a.workspace_path b.workspace_path
          && same a.branch_name b.branch_name
          && same a.base_branch b.base_branch
          && agent_status_eq a.status b.status
          && same a.last_output b.last_output
          && a.start_time ==ℤ b.start_time)
        (same a.mode b.mode) r10 in
    let (r8, h_start_time) =
      both
        (same a.task b.task
          && same a.runtime_type b.runtime_type
          && same a.resume_token b.resume_token
          && same a.workspace_path b.workspace_path
          && same a.branch_name b.branch_name
          && same a.base_branch b.base_branch
          && agent_status_eq a.status b.status
          && same a.last_output b.last_output)
        (a.start_time ==ℤ b.start_time) r9 in
    let (r7, h_last_output) =
      both
        (same a.task b.task
          && same a.runtime_type b.runtime_type
          && same a.resume_token b.resume_token
          && same a.workspace_path b.workspace_path
          && same a.branch_name b.branch_name
          && same a.base_branch b.base_branch
          && agent_status_eq a.status b.status)
        (same a.last_output b.last_output) r8 in
    let (r6, h_status) =
      both
        (same a.task b.task
          && same a.runtime_type b.runtime_type
          && same a.resume_token b.resume_token
          && same a.workspace_path b.workspace_path
          && same a.branch_name b.branch_name
          && same a.base_branch b.base_branch)
        (agent_status_eq a.status b.status) r7 in
    let (r5, h_base_branch) =
      both
        (same a.task b.task
          && same a.runtime_type b.runtime_type
          && same a.resume_token b.resume_token
          && same a.workspace_path b.workspace_path
          && same a.branch_name b.branch_name)
        (same a.base_branch b.base_branch) r6 in
    let (r4, h_branch_name) =
      both
        (same a.task b.task
          && same a.runtime_type b.runtime_type
          && same a.resume_token b.resume_token
          && same a.workspace_path b.workspace_path)
        (same a.branch_name b.branch_name) r5 in
    let (r3, h_workspace_path) =
      both
        (same a.task b.task
          && same a.runtime_type b.runtime_type
          && same a.resume_token b.resume_token)
        (same a.workspace_path b.workspace_path) r4 in
    let (r2, h_resume_token) =
      both (same a.task b.task && same a.runtime_type b.runtime_type)
        (same a.resume_token b.resume_token) r3 in
    let (r1, h_runtime_type) = both (same a.task b.task) (same a.runtime_type b.runtime_type) r2 in
    let e_mission_id : a.mission_id ≡ b.mission_id = let k = h_mission_id in ground arith in
    λ i. record {
      task = (same→≡ a.task b.task r1) i;
      runtime_type = (same→≡ a.runtime_type b.runtime_type h_runtime_type) i;
      resume_token = (same→≡ a.resume_token b.resume_token h_resume_token) i;
      workspace_path = (same→≡ a.workspace_path b.workspace_path h_workspace_path) i;
      branch_name = (same→≡ a.branch_name b.branch_name h_branch_name) i;
      base_branch = (same→≡ a.base_branch b.base_branch h_base_branch) i;
      status = (agent_status_eq-≡ a.status b.status h_status) i;
      last_output = (same→≡ a.last_output b.last_output h_last_output) i;
      start_time = (==ℤ-true a.start_time b.start_time h_start_time) i;
      mode = (same→≡ a.mode b.mode h_mode) i;
      current_intent = (same→≡ a.current_intent b.current_intent h_current_intent) i;
      objective_id = (same→≡ a.objective_id b.objective_id h_objective_id) i;
      mission_id = e_mission_id i;
    }
