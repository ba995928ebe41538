-- ===== src/Worker/Offsets.antt =====
-- Which records beatstream/internal/queue/kafka.go reads again after a restart. The offsets that the
-- Kafka client keeps for a partition are an interface with its documented law: a mark commits the
-- offset after its record, and never moves the committed offset back.
use system_design_lab.Prelude.{
  ℕ, suc, String, ◌≤◌, ◌<◌, max, List, [], ◌∷◌, All, ◌↔◌, ◌≡◌, refl, sym, ap, ◌∙◌, inl, inr, arith,
}
use system_design_lab.Worker.Queue.{Result, done, failed, Result-cases, consume}

pub record Partition : Type 1 where
  pub State : Type 0
  pub mark : State → ℕ → State
  -- Where the partition is read from after a restart, with all marks committed.
  pub resume : State → ℕ
  pub resume-mark : (s : State) (o : ℕ) → resume (mark s o) ≡ max (resume s) (suc o)

module _ (P : Partition) {M W : Type 0} (handler : M → W → Result × W) where
  -- `Consume` on the records of one poll, with their offsets.
  unfoldable pub poll : List (ℕ × M) → P.State → W → P.State × W
  poll [] s w = (s, w)
  poll ((o, m) ∷ rs) s w =
      let (result, w') = handler m w in
      elim result [ done ↦ poll rs (P.mark s o) w' | failed message ↦ poll rs s w' ]

  abbrev pub on_record : ℕ × M → W → Result × W
  on_record (o, m) w = handler m w

  -- The records for which the handler returns nil.
  abbrev pub marked : List (ℕ × M) → W → List (ℕ × M)
  marked rs w = (consume on_record rs w).0

  abbrev marked_all : P.State → List (ℕ × M) → P.State
  marked_all s [] = s
  marked_all s ((o, m) ∷ rs) = marked_all (P.mark s o) rs

  consume_done :
      (o : ℕ) (m : M) (rs : List (ℕ × M)) (w : W)
      → (handler m w).0 ≡ done
      → let rest = consume on_record rs (handler m w).1 in
        consume on_record ((o, m) ∷ rs) w ≡ ((o, m) ∷ rest.0, rest.1)
  unfolding consume
  consume_done o m rs w e = rw (e, consume) refl

  consume_failed :
      (o : ℕ) (m : M) (rs : List (ℕ × M)) (w : W) {message : String}
      → (handler m w).0 ≡ failed message
      → consume on_record ((o, m) ∷ rs) w ≡ consume on_record rs (handler m w).1
  unfolding consume
  consume_failed o m rs w e = rw (e, consume) refl

  poll_done :
      (o : ℕ) (m : M) (rs : List (ℕ × M)) (s : P.State) (w : W)
      → (handler m w).0 ≡ done
      → poll ((o, m) ∷ rs) s w ≡ poll rs (P.mark s o) (handler m w).1
  unfolding poll
  poll_done o m rs s w e = rw (e, poll) refl

  poll_failed :
      (o : ℕ) (m : M) (rs : List (ℕ × M)) (s : P.State) (w : W) {message : String}
      → (handler m w).0 ≡ failed message
      → poll ((o, m) ∷ rs) s w ≡ poll rs s (handler m w).1
  unfolding poll
  poll_failed o m rs s w e = rw (e, poll) refl

  poll_nothing : (s : P.State) (w : W) → (poll [] s w).0 ≡ marked_all s (marked [] w)
  unfolding poll consume
  poll_nothing s w = refl

  poll-consume :
      (rs : List (ℕ × M)) (s : P.State) (w : W) → (poll rs s w).0 ≡ marked_all s (marked rs w)
  poll-consume [] s w = poll_nothing s w
  poll-consume ((o, m) ∷ rs) s w = elim (Result-cases (handler m w).0) [
    | inl e ↦
        ap (λ r. r.0) (poll_done o m rs s w e)
        ∙ poll-consume rs (P.mark s o) (handler m w).1
        ∙ ap (λ r. marked_all s r.0) (sym (consume_done o m rs w e))
    | inr (message, e) ↦
        ap (λ r. r.0) (poll_failed o m rs s w e)
        ∙ poll-consume rs s (handler m w).1
        ∙ ap (λ r. marked_all s r.0) (sym (consume_failed o m rs w e))
  ]

  -- Every mark is below the offset.
  abbrev pub AllBelow : ℕ → List (ℕ × M) → Type 0
  AllBelow o rs = All (λ r. r.0 < o) rs

  resume-marked_all :
      (s : P.State) (rs : List (ℕ × M)) (o : ℕ)
      → (P.resume (marked_all s rs) ≤ o) ↔ ((P.resume s ≤ o) × AllBelow o rs)
  resume-marked_all s [] o = ((λ h. (h, tt)), (λ h. h.0))
  resume-marked_all s ((m, r) ∷ rs) o =
      let (to, from) = resume-marked_all (P.mark s m) rs o in
      (
        (λ h.
            let (near, far) = to h in
            (
              omega (arith, near, P.resume-mark s m),
              (omega (arith, near, P.resume-mark s m), far),
            )),
        (λ h. from (omega (arith, h.0, h.1.0, P.resume-mark s m), h.1.1)),
      )

  -- A record of a poll that is not behind the committed offset is read again after a restart exactly
  -- if every record of the poll that the handler takes without an error comes before it: one that
  -- failed is lost when a later one of its partition succeeds.
  pub poll_redelivers :
      (rs : List (ℕ × M)) (s : P.State) (w : W) (o : ℕ)
      → P.resume s ≤ o
      → (P.resume (poll rs s w).0 ≤ o) ↔ AllBelow o (marked rs w)
  poll_redelivers rs s w o ahead =
      let (to, from) = resume-marked_all s (marked rs w) o in
      let same : (poll rs s w).0 ≡ marked_all s (marked rs w) = poll-consume rs s w in
      rw same ((λ h. (to h).1), (λ h. from (ahead, h)))
