-- ===== src/Download/Tests.antt =====
-- Witnesses and tests of the downloads.
use remy_desk.Base.{ℕ, ◌≡◌, ◌↔◌, refl, true, false, inl, none, some, List, [], ◌∷◌, arith}
use remy_desk.Base.Text.{same_bytes, codes}
use remy_desk.Download.Name.{
  valid_utf8, valid_from, continuation, character_ok, to_string, digits, bad_scheme, validate_url,
  to_lower, filename_from_url, decoded_name, percent_decode, escaped, hex_value, before_query,
  last_part, without_unsafe, is_unusable, shortened,
}
use remy_desk.Download.Encoding.{Scalars, encode_all, valid_utf8_iff}
use remy_desk.Download.Safe.{SafeName, filename_from_url-SafeName}
use remy_desk.Download.Target.{
  unique_target, search_target, candidate, stem_extension, split_last_dot,
}
use remy_desk.Download.Unique.{FirstFree, unique_target-FirstFree}
use remy_desk.Download.Queue.{
  Task, Manager, start_manager, new_task, enqueue, accepted, Fetched, never, waiting, ask, Reach,
  start, step,
}
use remy_desk.Download.Queue.Order.{Ordered, Reach-Ordered}
use remy_desk.Download.Queue.End.{Directory}

abbrev euro : List ℕ
euro = 226 ∷ 130 ∷ 172 ∷ []

valid_utf8_iff_example :
    (valid_utf8 euro ≡ true) ↔ ((text : List ℕ) × Scalars text × (encode_all text ≡ euro))
valid_utf8_iff_example = valid_utf8_iff euro

-- U+0000 in two bytes
overlong : valid_utf8 (192 ∷ 128 ∷ []) ≡ false
unfolding valid_utf8 valid_from continuation
overlong = refl

-- The escaped slash and dots leave a harmless name.
abbrev sly : List ℕ
sly = codes "http://host/dir/..%2f..%2Fetc%2Fpasswd?x=1"

sly_name : filename_from_url sly 7 ≡ codes "....etcpasswd"
unfolding filename_from_url decoded_name percent_decode escaped hex_value to_lower before_query
    last_part without_unsafe is_unusable valid_utf8 valid_from continuation character_ok shortened
sly_name = refl

dots_name : filename_from_url (codes "http://host/%2e%2e") 7 ≡ codes "download-7"
unfolding filename_from_url decoded_name percent_decode escaped hex_value to_lower before_query
    last_part without_unsafe is_unusable valid_utf8 valid_from continuation character_ok shortened
    to_string digits
dots_name = refl

filename_from_url-SafeName_example : SafeName (filename_from_url sly 7)
filename_from_url-SafeName_example = filename_from_url-SafeName sly 7

no_ftp : validate_url (codes "ftp://host/x") ≡ inl bad_scheme
unfolding validate_url to_lower
no_ftp = refl

abbrev stored : List (List ℕ)
stored = codes "a.tar.gz" ∷ codes "a.tar (1).gz" ∷ codes "b" ∷ []

second_copy : unique_target 4 stored (codes "a.tar.gz") ≡ some (codes "a.tar (2).gz")
unfolding unique_target search_target candidate stem_extension split_last_dot to_string digits
second_copy = refl

unique_target-FirstFree_example :
    (target : List ℕ) × (unique_target 4 stored (codes "a.tar.gz") ≡ some target)
    × FirstFree stored (codes "a.tar.gz") target
unique_target-FirstFree_example = unique_target-FirstFree stored (codes "a.tar.gz") (omega arith)

abbrev link : List ℕ
link = codes "HTTP://host/a"

abbrev one_task : Manager
one_task = record { tasks = new_task 1 link 5 ∷ []; queue = 1 ∷ []; next_id = 2 }

abbrev two_tasks : Manager
two_tasks = record {
  tasks = new_task 1 link 5 ∷ new_task 2 link 6 ∷ [];
  queue = 1 ∷ 2 ∷ [];
  next_id = 3;
}

first_asked : enqueue start_manager link 5 ≡ accepted one_task (new_task 1 link 5) 1
unfolding enqueue validate_url to_lower
first_asked = refl

second_asked : enqueue one_task link 6 ≡ accepted two_tasks (new_task 2 link 6) 2
unfolding enqueue validate_url to_lower
second_asked = refl

abbrev two_waiting : Reach two_tasks waiting
two_waiting =
    step (step start (ask link 5 (omega arith) first_asked)) (ask link 6 (omega arith) second_asked)

Reach-Ordered_example : Ordered two_tasks waiting
Reach-Ordered_example = Reach-Ordered two_waiting

abbrev fetched_well : Fetched
fetched_well = record {
  is_ok = true;
  timed_out = false;
  output = [];
  rename_error = none;
  size = some 10;
  stop = never;
}

abbrev fetching_task : Task
fetching_task = record (new_task 1 link 5) { name = codes "a"; temporary = some (codes ".a.1") }

abbrev one_file : Directory
one_file p = same_bytes p (codes ".a.1")
