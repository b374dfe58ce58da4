-- ===== src/Mailbox/Store/Laws.antt =====
-- What the statements of the mailbox do to the tables.
use fracta.Common.{String, arith}
use fracta.World.{World, KeepsObjectives, KeepsProposals, KeepsMissions, KeepsAgents, KeepsFaults}
use fracta.Mailbox.{Content}
use fracta.Mailbox.Store.{send}

-- Only the messages and the cursors change.
abbrev pub Frame : World → World → Type 0
Frame w w' =
    KeepsObjectives w w'
    × KeepsProposals w w'
    × KeepsMissions w w'
    × KeepsAgents w w'
    × KeepsFaults w w'

pub send-Frame :
    (from to : String) (content : Content) (w : World) → Frame w (send from to content w).1
unfolding send
send-Frame from to content w = ground arith
