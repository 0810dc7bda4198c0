-- ===== src/StateEdit/Codec.antt =====
-- A codec of plans as numbers, which stands for JSON in the runs of scripts/state_edit.py: each text
-- and each list has its length before it.
use hh_ai_v.Base.{
  ℕ, zero, suc, ◌≡◌, refl, ap, Text, Option, none, some, List, [], ◌∷◌, ◌++◌, length, take, drop,
  drop-append,
}
use hh_ai_v.StateEdit.Ops.{Op, replace, replace_line, insert_after_line}
use hh_ai_v.StateEdit.Checks.{Bytes, Entry, Plan}

unfoldable pub put_text : Text → Bytes → Bytes
put_text t rest = length t ∷ (t ++ rest)

unfoldable pub get_text : Bytes → Text × Bytes
get_text [] = ([], [])
get_text (n ∷ xs) = (take n xs, drop n xs)

take-append : (t rest : Text) → take (length t) (t ++ rest) ≡ t
take-append [] rest = refl
take-append (c ∷ t) rest = ap (◌∷◌ c) (take-append t rest)

get_text-put : (t : Text) (rest : Bytes) → get_text (put_text t rest) ≡ (t, rest)
unfolding put_text get_text
get_text-put t rest = rw (take-append t rest) (rw (drop-append t rest) refl)

abbrev pub put_items : {A : Type 0} → (A → Bytes → Bytes) → List A → Bytes → Bytes
put_items put [] rest = rest
put_items put (a ∷ items) rest = put a (put_items put items rest)

abbrev pub get_items : {A : Type 0} → (Bytes → A × Bytes) → ℕ → Bytes → List A × Bytes
get_items get zero xs = ([], xs)
get_items get (suc n) xs =
    let (a, ys) = get xs in let (items, zs) = get_items get n ys in (a ∷ items, zs)

get_items-put :
    {A : Type 0} (put : A → Bytes → Bytes) (get : Bytes → A × Bytes)
    → ((a : A) (rest : Bytes) → get (put a rest) ≡ (a, rest))
    → (items : List A) (rest : Bytes)
    → get_items get (length items) (put_items put items rest) ≡ (items, rest)
get_items-put put get round_trip [] rest = refl
get_items-put put get round_trip (a ∷ items) rest =
    rw (round_trip a (put_items put items rest))
      (rw (get_items-put put get round_trip items rest) refl)

abbrev pub put_op : Op → Bytes → Bytes
put_op (replace a b) rest = 0 ∷ put_text a (put_text b rest)
put_op (replace_line a b) rest = 1 ∷ put_text a (put_text b rest)
put_op (insert_after_line a b) rest = 2 ∷ put_text a (put_text b rest)

abbrev pub tagged : ℕ → Text → Text → Op
tagged zero a b = replace a b
tagged (suc zero) a b = replace_line a b
tagged (suc (suc n)) a b = insert_after_line a b

abbrev pub get_op : Bytes → Op × Bytes
get_op [] = (replace [] [], [])
get_op (tag ∷ xs) = let (a, ys) = get_text xs in let (b, zs) = get_text ys in (tagged tag a b, zs)

get_op-put : (o : Op) (rest : Bytes) → get_op (put_op o rest) ≡ (o, rest)
get_op-put (replace a b) rest =
    rw (get_text-put a (put_text b rest)) (rw (get_text-put b rest) refl)
get_op-put (replace_line a b) rest =
    rw (get_text-put a (put_text b rest)) (rw (get_text-put b rest) refl)
get_op-put (insert_after_line a b) rest =
    rw (get_text-put a (put_text b rest)) (rw (get_text-put b rest) refl)

abbrev pub get_list : {A : Type 0} → (Bytes → A × Bytes) → Bytes → List A × Bytes
get_list get [] = ([], [])
get_list get (n ∷ xs) = get_items get n xs

abbrev pub put_entry : Entry → Bytes → Bytes
put_entry e rest = put_text e.path (
    put_text e.before_sha256 (put_text e.after_sha256 (length e.ops ∷ put_items put_op e.ops rest)))

abbrev pub get_entry : Bytes → Entry × Bytes
get_entry xs =
    let (path, xs1) = get_text xs in
    let (before, xs2) = get_text xs1 in
    let (after, xs3) = get_text xs2 in
    let (ops, xs4) = get_list get_op xs3 in
    (record { path = path; before_sha256 = before; after_sha256 = after; ops = ops }, xs4)

get_entry-put : (e : Entry) (rest : Bytes) → get_entry (put_entry e rest) ≡ (e, rest)
get_entry-put e rest =
    rw
      (get_text-put e.path (
        put_text e.before_sha256
          (put_text e.after_sha256 (length e.ops ∷ put_items put_op e.ops rest))))
      (rw
        (get_text-put e.before_sha256
          (put_text e.after_sha256 (length e.ops ∷ put_items put_op e.ops rest)))
        (rw (get_text-put e.after_sha256 (length e.ops ∷ put_items put_op e.ops rest))
          (rw (get_items-put put_op get_op get_op-put e.ops rest) refl)))

abbrev pub dump_plan : Plan → Bytes
dump_plan p =
    p.schema_version
    ∷ put_text p.task_id
        (put_text p.prompt_sha256 (length p.files ∷ put_items put_entry p.files []))

abbrev pub load_plan : Bytes → Option Plan
load_plan [] = none
load_plan (version ∷ xs) =
    let (task, xs1) = get_text xs in
    let (prompt, xs2) = get_text xs1 in
    let (files, xs3) = get_list get_entry xs2 in
    some
      (record { schema_version = version; task_id = task; prompt_sha256 = prompt; files = files })

pub load_plan-dump_plan : (p : Plan) → load_plan (dump_plan p) ≡ some p
load_plan-dump_plan p =
    rw
      (get_text-put p.task_id
        (put_text p.prompt_sha256 (length p.files ∷ put_items put_entry p.files [])))
      (rw (get_text-put p.prompt_sha256 (length p.files ∷ put_items put_entry p.files []))
        (rw (get_items-put put_entry get_entry get_entry-put p.files []) refl))
