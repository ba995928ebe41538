-- ===== src/Worker/Race.antt =====
-- Several deliveries of one upload event at the same time, in beatstream/internal/worker/upload.go:
-- each runs the statements of `process`, and the database orders the statements of all of them.
use system_design_lab.Prelude.{
  ℕ, String, Bool, true, false, ◌≡◌, ◌≢◌, refl, sym, ap, ◌∙◌, inl, inr, ◌⊎◌, eqb, eqb_iff, ◌==◌,
  text_eq, if◌then◌else◌, arith, Bool-cases,
}

-- Where a delivery is: before its first statement, after it has read `pending`, after its update to
-- processing, or at its end.
pub data Pc : Type 0 where
  start checked working stopped : Pc

-- The track's status, whether an update of a failed delivery to error was lost, and whether a delivery
-- was cut off at its work.
pub record System : Type 0 where
  pub status : String
  pub lost : Bool
  pub cut : Bool
  pub pc : ℕ → Pc

abbrev pub move : (ℕ → Pc) → ℕ → Pc → ℕ → Pc
move pc i p j = if eqb i j then p else pc j

-- `UPDATE tracks SET status = 'processing' WHERE id = $1 AND status = 'pending'`
abbrev pub claim : String → String
claim status = if status == "pending" then "processing" else status

-- One statement of a delivery. The number of rows that the update to processing changed is not read.
pub data Step (s : System) : System → Type 0 where
  -- the status cannot be read, or is not pending
  skip : (i : ℕ) → s.pc i ≡ start → Step s (record s { pc = move s.pc i stopped })
  check :
      (i : ℕ)
      → s.pc i ≡ start
      → s.status ≡ "pending"
      → Step s (record s { pc = move s.pc i checked })
  claim_fails : (i : ℕ) → s.pc i ≡ checked → Step s (record s { pc = move s.pc i stopped })
  claims :
      (i : ℕ)
      → s.pc i ≡ checked
      → Step s (record s { status = claim s.status; pc = move s.pc i working })
  succeeds :
      (i : ℕ) → s.pc i ≡ working → Step s (record s { status = "ready"; pc = move s.pc i stopped })
  gives_up :
      (i : ℕ) → s.pc i ≡ working → Step s (record s { status = "error"; pc = move s.pc i stopped })
  gives_up_lost :
      (i : ℕ) → s.pc i ≡ working → Step s (record s { lost = true; pc = move s.pc i stopped })
  -- the process ends before the delivery does, at a shutdown or a crash
  cut_off_early : (i : ℕ) → s.pc i ≡ checked → Step s (record s { pc = move s.pc i stopped })
  cut_off : (i : ℕ) → s.pc i ≡ working → Step s (record s { cut = true; pc = move s.pc i stopped })

-- A pending track whose event is about to be delivered any number of times.
abbrev pub initial : System
initial = record { status = "pending"; lost = false; cut = false; pc = λ i. start }

pub data Reach : System → Type 0 where
  here : Reach initial
  next : {s t : System} → Reach s → Step s t → Reach t

abbrev pub IsIdle : System → Type 0
IsIdle s = (i : ℕ) → s.pc i ≢ working

-- A pending track is worked on by nobody, one in processing by somebody, or its marking as error was
-- lost or its delivery cut off.
data Inv (s : System) : Type 0 where
  waiting : s.status ≡ "pending" → IsIdle s → Inv s
  busy : s.status ≡ "processing" → (i : ℕ) → s.pc i ≡ working → Inv s
  ended : (s.status ≡ "ready") ⊎ (s.status ≡ "error") → Inv s
  abandoned : s.status ≡ "processing" → (s.lost ≡ true) ⊎ (s.cut ≡ true) → Inv s

moved_self : (pc : ℕ → Pc) (i : ℕ) (p : Pc) → move pc i p i ≡ p
moved_self pc i p = rw ((eqb_iff i i).1 refl)

-- Another delivery stays where it is.
moved_other : (pc : ℕ → Pc) (i j : ℕ) (p : Pc) → pc i ≢ pc j → move pc i p j ≡ pc j
moved_other pc i j p h = elim (Bool-cases (eqb i j)) [
  | inl same ↦ absurd (h (ap pc ((eqb_iff i j).0 same)))
  | inr other ↦ rw other
]

start≢working : start ≢ working
start≢working e = cc

checked≢working : checked ≢ working
checked≢working e = cc

stopped≢working : stopped ≢ working
stopped≢working e = cc

idle_after :
    (s : System) (i : ℕ) (p : Pc) → p ≢ working → IsIdle s → (j : ℕ) → move s.pc i p j ≢ working
idle_after s i p quiet idle j = elim (Bool-cases (eqb i j)) [
  | inl same ↦ rw same quiet
  | inr other ↦ rw other (idle j)
]

-- A step that changes the place of a delivery that does not work keeps the invariant.
quiet_step :
    (s : System) (i : ℕ) (p q : Pc)
    → s.pc i ≡ q
    → q ≢ working
    → p ≢ working
    → Inv s
    → Inv (record s { pc = move s.pc i p })
quiet_step s i p q at other quiet (waiting e idle) = waiting e (idle_after s i p quiet idle)
quiet_step s i p q at other quiet (busy e j works) =
    busy e j (moved_other s.pc i j p (λ same. other (sym at ∙ same ∙ works)) ∙ works)
quiet_step s i p q at other quiet (ended e) = ended e
quiet_step s i p q at other quiet (abandoned e l) = abandoned e l

claims_step :
    (s : System) (i : ℕ)
    → s.pc i ≡ checked
    → Inv s
    → Inv (record s { status = claim s.status; pc = move s.pc i working })
claims_step s i at (waiting e idle) = busy (rw e) i (moved_self s.pc i working)
claims_step s i at (busy e j works) = busy (rw e) i (moved_self s.pc i working)
claims_step s i at (ended (inl e)) = ended (inl (rw e))
claims_step s i at (ended (inr e)) = ended (inr (rw e))
claims_step s i at (abandoned e l) = abandoned (rw e) l

lost_step :
    (s : System) (i : ℕ)
    → s.pc i ≡ working
    → Inv s
    → Inv (record s { lost = true; pc = move s.pc i stopped })
lost_step s i at (waiting e idle) = absurd (idle i at)
lost_step s i at (busy e j works) = abandoned e (inl refl)
lost_step s i at (ended e) = ended e
lost_step s i at (abandoned e l) = abandoned e (inl refl)

cut_step :
    (s : System) (i : ℕ)
    → s.pc i ≡ working
    → Inv s
    → Inv (record s { cut = true; pc = move s.pc i stopped })
cut_step s i at (waiting e idle) = absurd (idle i at)
cut_step s i at (busy e j works) = abandoned e (inr refl)
cut_step s i at (ended e) = ended e
cut_step s i at (abandoned e l) = abandoned e (inr refl)

Step-Inv : {s t : System} → Step s t → Inv s → Inv t
Step-Inv {s = s} (skip i at) h = quiet_step s i stopped start at start≢working stopped≢working h
Step-Inv {s = s} (check i at e) h = quiet_step s i checked start at start≢working checked≢working h
Step-Inv {s = s} (claim_fails i at) h =
    quiet_step s i stopped checked at checked≢working stopped≢working h
Step-Inv {s = s} (claims i at) h = claims_step s i at h
Step-Inv (succeeds i at) h = ended (inl refl)
Step-Inv (gives_up i at) h = ended (inr refl)
Step-Inv {s = s} (gives_up_lost i at) h = lost_step s i at h
Step-Inv {s = s} (cut_off_early i at) h =
    quiet_step s i stopped checked at checked≢working stopped≢working h
Step-Inv {s = s} (cut_off i at) h = cut_step s i at h

Reach-Inv : {s : System} → Reach s → Inv s
Reach-Inv here = waiting refl (λ i. start≢working)
Reach-Inv (next r st) = Step-Inv st (Reach-Inv r)

-- However the statements of any number of deliveries of one event are interleaved, a track that none
-- of them works on any more is still pending, ready or in error, if no marking as error was lost and
-- no delivery was cut off at its work by the end of its process.
pub Reach-settled :
    (s : System)
    → Reach s
    → IsIdle s
    → s.lost ≡ false
    → s.cut ≡ false
    → (s.status ≡ "pending") ⊎ ((s.status ≡ "ready") ⊎ (s.status ≡ "error"))
Reach-settled s r idle kept whole = go (Reach-Inv r)
  where
    go : Inv s → (s.status ≡ "pending") ⊎ ((s.status ≡ "ready") ⊎ (s.status ≡ "error"))
    go (waiting e quiet) = inl e
    go (busy e i works) = absurd (idle i works)
    go (ended e) = inr e
    go (abandoned e (inl l)) = absurd (ground (arith, l, kept))
    go (abandoned e (inr l)) = absurd (ground (arith, l, whole))

moved_past : (pc : ℕ → Pc) (i j : ℕ) (p : Pc) → eqb i j ≡ false → move pc i p j ≡ pc j
moved_past pc i j p other = rw other

module _ (i j : ℕ) (distinct : i ≢ j) where
  there : eqb i j ≡ false
  there = ground (arith, eqb_iff i j, distinct)

  back : eqb j i ≡ false
  back = ground (arith, eqb_iff j i, λ (e : j ≡ i). distinct (sym e))

  abbrev one_checked : System
  one_checked = record initial { pc = move initial.pc i checked }

  abbrev both_checked : System
  both_checked = record one_checked { pc = move one_checked.pc j checked }

  abbrev one_works : System
  one_works = record both_checked { status = claim "pending"; pc = move both_checked.pc i working }

  abbrev both_work : System
  both_work = record one_works { status = claim "processing"; pc = move one_works.pc j working }

  abbrev one_done : System
  one_done = record both_work { status = "ready"; pc = move both_work.pc i stopped }

  i_works : both_work.pc i ≡ working
  i_works = moved_past one_works.pc j i working back ∙ moved_self both_checked.pc i working

  reach_both : Reach both_work
  reach_both =
      next
        (next
          (next (next here (check i refl refl))
            (check j (moved_past initial.pc i j checked there) refl))
          (claims i (moved_past one_checked.pc j i checked back ∙ moved_self initial.pc i checked)))
        (claims j
          (moved_past both_checked.pc i j working there ∙ moved_self one_checked.pc j checked))

  -- Any two deliveries of one event can come to work on its track at the same time, and then one can
  -- turn the track that the other made ready into one in error.
  pub two_deliveries :
      ((s : System) × Reach s × (s.pc i ≡ working) × (s.pc j ≡ working))
      × ((s : System) × (t : System) × Reach s
          × (s.status ≡ "ready")
          × Step s t
          × (t.status ≡ "error"))
  two_deliveries = (
    (both_work, reach_both, i_works, moved_self one_works.pc j working),
    (
      one_done,
      record one_done { status = "error"; pc = move one_done.pc j stopped },
      next reach_both (succeeds i i_works),
      refl,
      gives_up j (moved_past both_work.pc i j stopped there ∙ moved_self one_works.pc j working),
      refl,
    ),
  )
