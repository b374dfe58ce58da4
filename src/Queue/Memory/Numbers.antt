-- ===== src/Queue/Memory/Numbers.antt =====
-- The numbers of missions: `nextID` of internal/queue/memory.go.
use fracta.World.{World}
