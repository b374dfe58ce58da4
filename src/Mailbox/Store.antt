-- ===== src/Mailbox/Store.antt =====
-- The mailbox over PostgreSQL: internal/state/pgstore/mailbox.go.
pub mod Laws
use fracta.Common.{
  ℕ, ◌+◌, ltb, leb, ◌==◌, String, same, Bool, not, ◌&&◌, Option, none, some, List, [], ◌∷◌, ◌++◌,
  find_row, exists_row, select_rows, update_row, count_rows, delete_row, sort_rows, if◌then◌else◌,
}
use fracta.World.{World, ok, err, Action, ◌>>=◌, call, now, transaction}
use fracta.Mailbox.{Content, Message, Cursor}

-- `Send`
unfoldable pub send : String → String → Content → Action (Unit {0})
send from to content w =
    call
      (λ w'.
        let m : Message = record {
          id = w'.next_message;
          from = from;
          to = to;
          content = content;
          timestamp = now w;
        } in
        (
          ok tt,
          record w' { messages = w'.messages ++ (m ∷ []); next_message = w'.next_message + 1 },
        ))
      w

abbrev pub is_cursor_of : String → Cursor → Bool
is_cursor_of task c = same c.task task

abbrev last_read : Option Cursor → ℕ
last_read none = 0
last_read (some c) = c.last_id

-- The cursor of an agent; 0 where there is no row.
abbrev pub cursor : String → World → ℕ
cursor task w = last_read (find_row (is_cursor_of task) w.cursors)

-- `to_task = $1 AND id > $2`
abbrev pub unread_by : String → ℕ → Message → Bool
unread_by task last m = same m.to task && ltb last m.id

-- `ORDER BY id`
abbrev pub sent_before : Message → Message → Bool
sent_before m n = leb m.id n.id

-- The largest number among the messages, `maxID`.
abbrev pub max_id : ℕ → List Message → ℕ
max_id top [] = top
max_id top (m ∷ ms) = max_id (if ltb top m.id then m.id else top) ms

-- INSERT INTO cursors … ON CONFLICT DO UPDATE.
abbrev pub put_cursor : String → ℕ → List Cursor → List Cursor
put_cursor task last cs =
    if exists_row (is_cursor_of task) cs
    then update_row (is_cursor_of task) (λ c. record c { last_id = last }) cs
    else cs ++ (record { task = task; last_id = last } ∷ [])

-- `to_task = $1 AND id <= $2`, the messages of the DELETE.
abbrev pub consumed_by : String → ℕ → Message → Bool
consumed_by task last m = same m.to task && leb m.id last

-- Advances the cursor and deletes what was read, two statements.
abbrev consume : String → ℕ → List Message → Action (List Message)
consume task top ms =
    call (λ w. (ok tt, record w { cursors = put_cursor task top w.cursors })) >>= λ _.
    call λ w.
      (ok ms, record w { messages = select_rows (λ m. not (consumed_by task top m)) w.messages })

-- The end of the transaction of `Read`, from the messages that were scanned.
abbrev advance : String → ℕ → List Message → Action (List Message)
advance task last ms w =
    if ltb last (max_id 0 ms) then consume task (max_id 0 ms) ms w else (ok ms, w)

-- `Read`
unfoldable pub read : String → Action (List Message)
unfolding sort_rows
read task = transaction (
    call (λ w. (ok (cursor task w), w)) >>= λ last.
    call (λ w. (ok (sort_rows sent_before (select_rows (unread_by task last) w.messages)), w))
    >>= λ ms. advance task last ms)

-- `UnreadCount`
unfoldable pub unread_count : String → Action ℕ
unread_count task = call (λ w. (ok (cursor task w), w)) >>= λ last.
    call λ w. (ok (count_rows (unread_by task last) w.messages), w)

-- `Remove`
unfoldable pub remove : String → Action (Unit {0})
remove task = transaction (
    call (λ w. (ok tt, record w { messages = select_rows (λ m. not (same m.to task)) w.messages }))
    >>= λ _. call λ w. (ok tt, record w { cursors = delete_row (is_cursor_of task) w.cursors }))
