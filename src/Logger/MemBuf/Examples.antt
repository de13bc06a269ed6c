-- ===== src/Logger/MemBuf/Examples.antt =====
-- A buffer of three entries after five log calls (logger/membuf.go).
use assertoor.Prelude.{
  ℕ, String, ◌≡◌, refl, Option, some, List, [], ◌∷◌, map, arith, leb, length, drop, filterb,
  nat_key, string_key,
}
use assertoor.Logger.MemBuf.{
  Entry, new_log_mem_buffer, task_log, fire, push, fire_all, get_log_entries, get_log_entry_count,
  at_most,
}
use assertoor.Logger.MemBuf.Query.{logs, fire_all-get_log_entries}

abbrev line : ℕ → Entry (List String)
line t = record { time_ms = t; level = 4; message = "block seen"; fields = [] }

abbrev encode : List String → Option String
encode fields = some "fields"

abbrev lines : List (Entry (List String))
lines = line 10 ∷ line 11 ∷ line 12 ∷ line 13 ∷ line 14 ∷ []

seen_indices :
    map
      (λ l. l.log_index)
      (get_log_entries (fire_all length encode (new_log_mem_buffer 1 2 3) lines) 4 0)
    ≡ 4 ∷ 5 ∷ []
unfolding get_log_entries fire_all new_log_mem_buffer fire push task_log
seen_indices = refl

fire_all-get_log_entries_example :
    (get_log_entries (fire_all length encode (new_log_mem_buffer 1 2 3) lines) 4 0
      ≡ at_most 0
          (filterb (λ l. leb 4 l.log_index) (drop 2 (logs (task_log length encode 1 2) 1 lines))))
    × (get_log_entry_count (fire_all length encode (new_log_mem_buffer 1 2 3) lines) ≡ 5)
fire_all-get_log_entries_example =
    fire_all-get_log_entries length encode 1 2 3 4 0 lines (omega arith) (omega arith)
