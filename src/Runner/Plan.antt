-- ===== src/Runner/Plan.antt =====
-- scripts/batch_runner.py: the steps of a task, `derive_steps`.
use hh_ai_v.Base.{Bool, Text, codes, text_eq, List, [], ◌∷◌, any, if◌then◌else◌}

pub data Kind : Type 0 where
  production promotion readonly : Kind

-- `start`: the mode, with the branch that is adopted
pub data StartMode : Type 0 where
  clean : StartMode
  adopt : Text → StartMode

-- What the runner reads of the spec of a prompt: `focused` and `bundle_output` as tests, and of the
-- authors the hash that belongs to the runner itself.
pub record Spec : Type 0 where
  pub kind : Kind
  pub base_oid : Text
  pub start : StartMode
  pub e24 : Bool
  pub has_focused : Bool
  pub bundle_output : Bool
  pub runner_update : Bool
  pub runner_author_sha256 : Text

abbrev pub production_steps : List Text
production_steps =
    codes "preflight"
    ∷ (codes "setup"
        ∷ (codes "e24"
            ∷ (codes "apply"
                ∷ (codes "focused"
                    ∷ (codes "generate"
                        ∷ (codes "precommit"
                            ∷ (codes "stage"
                                ∷ (codes "commit"
                                    ∷ (codes "postcommit"
                                        ∷ (codes "push" ∷ (codes "bundle" ∷ [])))))))))))

abbrev pub promotion_steps : List Text
promotion_steps = codes "preflight" ∷ (codes "verify" ∷ (codes "promote" ∷ (codes "postmain" ∷ [])))

-- `steps.remove(name)`
unfoldable pub remove : Text → List Text → List Text
remove name [] = []
remove name (x ∷ xs) = let rest = remove name xs in if text_eq x name then xs else x ∷ rest

unfoldable pub remove_unless : Bool → Text → List Text → List Text
remove_unless kept name steps = if kept then steps else remove name steps

-- the steps by the kind and the three options
unfoldable pub steps_of : Kind → Bool → Bool → Bool → List Text
steps_of readonly e24 focused bundle = []
steps_of promotion e24 focused bundle = promotion_steps
steps_of production e24 focused bundle =
    remove_unless bundle (codes "bundle")
      (remove_unless focused (codes "focused") (remove_unless e24 (codes "e24") production_steps))

unfoldable pub derive_steps : Spec → List Text
derive_steps spec = steps_of spec.kind spec.e24 spec.has_focused spec.bundle_output

-- `step in steps`
unfoldable pub is_step : Text → List Text → Bool
is_step step steps = any (λ x. text_eq x step) steps

-- `steps[:steps.index(step)]`
unfoldable pub before : Text → List Text → List Text
before step [] = []
before step (x ∷ xs) = let rest = before step xs in if text_eq x step then [] else x ∷ rest
