-- ===== src/Push/Updates.antt =====
-- scripts/governance_preflight.py: the lines that git gives to the pre-push hook.
use hh_ai_v.Base.{
  ℕ, zero, suc, Bool, true, false, ◌||◌, Text, codes, text_eq, List, [], ◌∷◌, Either, ok, stop,
  ◌>>=◌, if◌then◌else◌, is_space, cons_head, strip, lower,
}
use hh_ai_v.Push.Authorization.{Problem, malformed_line, main_deletion}

-- `line.split()`
unfoldable pub words : Text → List Text
words [] = []
words (c ∷ []) = if is_space c then [] else (c ∷ []) ∷ []
words (c ∷ (d ∷ cs)) =
    let rest = words (d ∷ cs) in
    if is_space c then rest else if is_space d then (c ∷ []) ∷ rest else cons_head c rest

pub record Update : Type 0 where
  pub local_ref : Text
  pub local_sha : Text
  pub remote_ref : Text
  pub remote_sha : Text

-- the update of the parts of a line
unfoldable pub update_of : List Text → Either Problem Update
update_of (local_ref ∷ (local_sha ∷ (remote_ref ∷ (remote_sha ∷ [])))) = ok (record {
  local_ref = local_ref;
  local_sha = lower local_sha;
  remote_ref = remote_ref;
  remote_sha = lower remote_sha;
})
update_of _ = stop malformed_line

unfoldable pub is_blank : Text → Bool
is_blank [] = true
is_blank (_ ∷ _) = false

-- `updates`
unfoldable pub updates_of : List Text → Either Problem (List Update)
updates_of [] = ok []
updates_of (raw ∷ lines) =
    let rest = updates_of lines in
    if is_blank (strip raw)
    then rest
    else do up ← update_of (words (strip raw)); ups ← rest; ok (up ∷ ups)

abbrev pub main_ref : Text
main_ref = codes "refs/heads/main"

-- `"0" * n`
unfoldable pub zeros : ℕ → Text
zeros zero = []
zeros (suc n) = b'0' ∷ zeros n

unfoldable pub is_main : Update → Bool
is_main up = text_eq up.remote_ref main_ref

unfoldable pub is_delete : Update → Bool
is_delete up =
    text_eq up.local_ref (codes "(delete)")
    || text_eq up.local_sha (zeros 40)
    || is_blank up.local_sha

-- the updates by their operation
pub record Operations : Type 0 where
  pub main_updates : List Update
  pub remote_deletions : List Update
  pub ordinary_updates : List Update

abbrev pub with_main : Update → Operations → Operations
with_main up o = record {
  main_updates = up ∷ o.main_updates;
  remote_deletions = o.remote_deletions;
  ordinary_updates = o.ordinary_updates;
}

abbrev pub with_deletion : Update → Operations → Operations
with_deletion up o = record {
  main_updates = o.main_updates;
  remote_deletions = up ∷ o.remote_deletions;
  ordinary_updates = o.ordinary_updates;
}

abbrev pub with_ordinary : Update → Operations → Operations
with_ordinary up o = record {
  main_updates = o.main_updates;
  remote_deletions = o.remote_deletions;
  ordinary_updates = up ∷ o.ordinary_updates;
}

-- an update before the operations of the others
unfoldable pub add_update : Update → Operations → Either Problem Operations
add_update up o =
    if is_main up
    then (if is_delete up then stop main_deletion else ok (with_main up o))
    else if is_delete up
    then ok (with_deletion up o)
    else ok (with_ordinary up o)

unfoldable pub operations_of : List Update → Either Problem Operations
operations_of [] = ok (record { main_updates = []; remote_deletions = []; ordinary_updates = [] })
operations_of (up ∷ ups) = do o ← operations_of ups; add_update up o
