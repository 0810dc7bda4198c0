-- ===== src/Ci/Retries.antt =====
-- scripts/verification_primitives.py: what a body that `do_get_json` reads has come through.
use mathlib.Core.Path.{subst}
use mathlib.Core.Option.{some-injective}
use hh_ai_v.Base.{
  ℕ, zero, suc, ◌+◌, ◌≤◌, ◌<◌, ◌≡◌, refl, ap, ◌∙◌, ◌⊎◌, ◌↔◌, inl, inr, leb, Option, none, some,
  List, arith, Bool-cases,
}
use hh_ai_v.Ci.Transport.{
  Reply, response, http_error, unreachable, other_exception, Request, deadline, retry_delay,
  retried, after_reply, get_body,
}

-- the request failed in a way that may be retried, and the pause ends before the deadline
pub record Retryable (serve : ℕ → Request) (index : ℕ) : Type 0 where
  pub delay : ℕ
  pub in_time : (serve index).before < deadline
  pub retryable : retry_delay index (serve index).reply ≡ some delay
  pub pause_in_time : (serve index).after + delay < deadline

-- One of the requests from `index` on and before `limit` gave the body in time, and each before it
-- was retried.
pub record Served (serve : ℕ → Request) (index limit : ℕ) (body : List ℕ) : Type 0 where
  pub last : ℕ
  pub from : index ≤ last
  pub to : last < limit
  pub answered : (serve last).reply ≡ response body
  pub started : (serve last).before < deadline
  pub finished : (serve last).after < deadline
  pub earlier : (i : ℕ) → index ≤ i → i < last → Retryable serve i

-- what a retry needs
Retry : ℕ → ℕ → Option ℕ → Option (List ℕ) → List ℕ → Type 0
Retry after left o rest body =
    (delay : ℕ) × (o ≡ some delay) × (after + delay < deadline) × (1 ≤ left) × (rest ≡ some body)

retried-Retry :
    (after left : ℕ) (o : Option ℕ) (rest : Option (List ℕ)) {body : List ℕ}
    → retried after left o rest ≡ some body
    → Retry after left o rest body
unfolding retried Retry
retried-Retry after left none rest h = absurd (ground arith)
retried-Retry after zero (some delay) rest h = absurd (ground arith)
retried-Retry after (suc left) (some delay) rest h =
    elim (Bool-cases (leb deadline (after + delay))) [
      | inl late ↦ absurd (ground (arith, late))
      | inr early ↦ (delay, refl, ground (arith, early), omega arith, ground (arith, early))
    ]

retried-of :
    (after left delay : ℕ) (o : Option ℕ) (rest : Option (List ℕ))
    → 1 ≤ left
    → o ≡ some delay
    → after + delay < deadline
    → retried after left o rest ≡ rest
unfolding retried
retried-of after left delay none rest l e h = absurd (ground arith)
retried-of after zero delay (some d) rest l e h = absurd (omega (arith, l))
retried-of after (suc left) delay (some d) rest l e h =
    let same : d ≡ delay = some-injective d delay e in
    elim (Bool-cases (leb deadline (after + d))) [
      | inl late ↦ absurd (ground (arith, late, same))
      | inr early ↦ ground (arith, early)
    ]

-- A reply that leads to the body is the response, or is followed by a retry.
after_reply-cases :
    (index left after : ℕ) (reply : Reply) (rest : Option (List ℕ)) {body : List ℕ}
    → after_reply index left after reply rest ≡ some body
    → ((reply ≡ response body) × (after < deadline))
      ⊎ Retry after left (retry_delay index reply) rest body
unfolding after_reply
after_reply-cases index left after (response b) rest {body} h =
    elim (Bool-cases (leb deadline after)) [
      | inl late ↦ absurd (ground (arith, late))
      | inr early ↦
          let same : some b ≡ some body = ground (arith, early) in
          inl (ap response (some-injective b body same), ground (arith, early))
    ]
after_reply-cases index left after (http_error code wait remaining) rest h =
    inr (retried-Retry after left (retry_delay index (http_error code wait remaining)) rest h)
after_reply-cases index left after unreachable rest h =
    inr (retried-Retry after left (retry_delay index unreachable) rest h)
after_reply-cases index left after other_exception rest h =
    inr (retried-Retry after left (retry_delay index other_exception) rest h)

after_reply-response :
    (index left after : ℕ) (reply : Reply) (rest : Option (List ℕ)) (body : List ℕ)
    → reply ≡ response body
    → after < deadline
    → after_reply index left after reply rest ≡ some body
unfolding after_reply
after_reply-response index left after reply rest body e h = elim (Bool-cases (leb deadline after)) [
  | inl late ↦ absurd (ground (arith, late))
  | inr early ↦ rw e (ground (arith, early))
]

after_reply-retry :
    (index left after delay : ℕ) (reply : Reply) (rest : Option (List ℕ))
    → 1 ≤ left
    → retry_delay index reply ≡ some delay
    → after + delay < deadline
    → after_reply index left after reply rest ≡ rest
unfolding after_reply retry_delay
after_reply-retry index left after delay (response b) rest l e h = absurd (ground arith)
after_reply-retry index left after delay (http_error code wait remaining) rest l e h =
    retried-of after left delay (retry_delay index (http_error code wait remaining)) rest l e h
after_reply-retry index left after delay unreachable rest l e h =
    retried-of after left delay (retry_delay index unreachable) rest l e h
after_reply-retry index left after delay other_exception rest l e h =
    retried-of after left delay (retry_delay index other_exception) rest l e h

module _ (serve : ℕ → Request) where
  -- what a request leads to, its start in time
  started-cases :
      (index left : ℕ) {body : List ℕ}
      → get_body serve index (suc left) ≡ some body
      → ((serve index).before < deadline)
        × (after_reply index left
              (serve index).after
              (serve index).reply
              (get_body serve (index + 1) left)
            ≡ some body)
  unfolding get_body
  started-cases index left h = elim (Bool-cases (leb deadline (serve index).before)) [
    | inl late ↦ absurd (ground (arith, late))
    | inr early ↦ (ground (arith, early), ground (arith, early))
  ]

  started-of :
      (index left : ℕ)
      → (serve index).before < deadline
      → get_body serve index (suc left)
        ≡ after_reply index left
            (serve index).after
            (serve index).reply
            (get_body serve (index + 1) left)
  unfolding get_body
  started-of index left h = elim (Bool-cases (leb deadline (serve index).before)) [
    | inl late ↦ absurd (ground (arith, late))
    | inr early ↦ ground (arith, early)
  ]

  Served-more :
      (index left : ℕ) {body : List ℕ}
      → Retryable serve index
      → Served serve (index + 1) (index + 1 + left) body
      → Served serve index (index + suc left) body
  Served-more index left first more = record {
    last = more.last;
    from = let from = more.from in omega (arith, from);
    to = let to = more.to in omega (arith, to);
    answered = more.answered;
    started = more.started;
    finished = more.finished;
    earlier = λ i from to. elim (Bool-cases (leb (index + 1) i)) [
      | inl later ↦ more.earlier i (ground (arith, later)) to
      | inr same ↦ subst (Retryable serve) (ground (arith, from, same)) first
    ];
  }

  get_body_sound :
      (index left : ℕ) {body : List ℕ}
      → get_body serve index left ≡ some body
      → Served serve index (index + left) body
  unfolding Retry get_body
  get_body_sound index zero h = absurd (ground arith)
  get_body_sound index (suc left) {body} h =
      let (started, after) = started-cases index left h in
      elim (after_reply-cases index left (serve index).after (serve index).reply _ after) [
        | inl (answered, finished) ↦ record {
          last = index;
          from = omega arith;
          to = omega arith;
          answered = answered;
          started = started;
          finished = finished;
          earlier = λ i from to. absurd (omega (arith, from, to));
        }
        | inr (delay, retryable, pause, more, rest) ↦
            Served-more index left
              (record {
                delay = delay;
                in_time = started;
                retryable = retryable;
                pause_in_time = pause;
              })
              (get_body_sound (index + 1) left rest)
      ]

  get_body_complete :
      (index left : ℕ) {body : List ℕ}
      → Served serve index (index + left) body
      → get_body serve index left ≡ some body
  get_body_complete index zero s =
      let from = s.from in let to = s.to in absurd (omega (arith, from, to))
  get_body_complete index (suc left) {body} s = elim (Bool-cases (leb (index + 1) s.last)) [
    | inr now ↦
        let from = s.from in
        let same : s.last ≡ index = ground (arith, from, now) in
        let (answered, started, finished) =
          subst
            (λ i.
              ((serve i).reply ≡ response body)
              × ((serve i).before < deadline)
              × ((serve i).after < deadline))
            same (s.answered, s.started, s.finished) in
        started-of index left started
        ∙ after_reply-response index left (serve index).after (serve index).reply _ body answered
            finished
    | inl later ↦
        let from = s.from in
        let to = s.to in
        let now = s.earlier index (omega arith) (ground (arith, later)) in
        let rest : Served serve (index + 1) (index + 1 + left) body = record {
          last = s.last;
          from = ground (arith, later);
          to = omega (arith, to);
          answered = s.answered;
          started = s.started;
          finished = s.finished;
          earlier = λ i low high. s.earlier i (omega (arith, low)) high;
        } in
        started-of index left now.in_time
        ∙ after_reply-retry index left (serve index).after now.delay (serve index).reply _
            (ground (arith, later, to)) now.retryable now.pause_in_time
        ∙ get_body_complete (index + 1) left rest
  ]

-- A body is read exactly where one of the three requests receives it in time and each request
-- before that one fails in a way that may be retried, with its pause before the deadline.
pub get_body-Served :
    (serve : ℕ → Request) (body : List ℕ) → (get_body serve 0 3 ≡ some body) ↔ Served serve 0 3 body
get_body-Served serve body = (get_body_sound serve 0 3, get_body_complete serve 0 3)
