-- ===== src/Pair/Transitions/Life.antt =====
-- The life of a field across cache lines on a straight line of transitions.
use nvmordering.Base.{
  ℕ, Bool, true, false, ◌||◌, ◌==◌, ◌≡◌, ◌⊎◌, inl, inr, refl, List, [], ◌∷◌, ◌++◌, arith,
}
use nvmordering.Pair.Lattice.{Dcl, write_dcl, dcl_no}
use nvmordering.Pair.StmtParser.{
  TransitionInfo, write_func, flush_func, flush_fence_func, pfence_func,
}
use nvmordering.Pair.Transitions.Values.{dcl_after}
use nvmordering.Pair.Transitions.Runs.{life}

-- The events that matter to a field `x`.
abbrev pub is_write_of : ℕ → TransitionInfo → Bool
is_write_of x ti = elim ti.transfer_func [ write_func ↦ ti.var == x | _ ↦ false ]

abbrev pub is_flush_of : ℕ → TransitionInfo → Bool
is_flush_of x ti = elim ti.transfer_func [
  | flush_func ↦ ti.var == x
  | flush_fence_func ↦ ti.var == x
  | _ ↦ false
]

-- a fence, or a flush of `x` that is also one
abbrev pub is_fence_of : ℕ → TransitionInfo → Bool
is_fence_of x ti = elim ti.transfer_func [
  | pfence_func ↦ true
  | flush_fence_func ↦ ti.var == x
  | _ ↦ false
]

abbrev pub is_pfence_stmt : TransitionInfo → Bool
is_pfence_stmt ti = elim ti.transfer_func [ pfence_func ↦ true | _ ↦ false ]

-- No transition of a list passes a test.
abbrev pub Never : (TransitionInfo → Bool) → List TransitionInfo → Type 0
Never test [] = Unit
Never test (ti ∷ tis) = (test ti ≡ false) × Never test tis

-- Written and not flushed; flushed or further; on its way or not written; not committed.
abbrev pub is_dirty : Dcl → Bool
is_dirty d = dcl_no d == 0

abbrev pub is_pending : Dcl → Bool
is_pending d = dcl_no d == 0 || dcl_no d == 1

module _ (x : ℕ) where
  life-dirty :
      (tis : List TransitionInfo) (d : Dcl)
      → Never (is_flush_of x) tis
      → is_dirty d ≡ true
      → is_dirty (life x tis d) ≡ true
  unfolding life
  life-dirty [] d n h = h
  life-dirty (ti ∷ tis) d n h = life-dirty tis _ n.1 (step (n.0))
    where
      step : is_flush_of x ti ≡ false → is_dirty (dcl_after (ti.var == x) ti.transfer_func d) ≡ true
      step e = unfold dcl_after in ground arith

  life-pending :
      (tis : List TransitionInfo) (d : Dcl)
      → Never (is_fence_of x) tis
      → is_pending d ≡ true
      → is_pending (life x tis d) ≡ true
  unfolding life
  life-pending [] d n h = h
  life-pending (ti ∷ tis) d n h = life-pending tis _ n.1 (step (n.0))
    where
      step :
          is_fence_of x ti ≡ false → is_pending (dcl_after (ti.var == x) ti.transfer_func d) ≡ true
      step e = unfold dcl_after in ground arith

  life-clean :
      (tis : List TransitionInfo) (d : Dcl)
      → Never (is_write_of x) tis
      → is_dirty d ≡ false
      → is_dirty (life x tis d) ≡ false
  unfolding life
  life-clean [] d n h = h
  life-clean (ti ∷ tis) d n h = life-clean tis _ n.1 (step (n.0))
    where
      step :
          is_write_of x ti ≡ false → is_dirty (dcl_after (ti.var == x) ti.transfer_func d) ≡ false
      step e = unfold dcl_after in ground arith

  life-committed :
      (tis : List TransitionInfo) (d : Dcl)
      → Never (is_write_of x) tis
      → is_pending d ≡ false
      → is_pending (life x tis d) ≡ false
  unfolding life
  life-committed [] d n h = h
  life-committed (ti ∷ tis) d n h = life-committed tis _ n.1 (step (n.0))
    where
      step :
          is_write_of x ti ≡ false → is_pending (dcl_after (ti.var == x) ti.transfer_func d) ≡ false
      step e = unfold dcl_after in ground arith

  life-append :
      (tis more : List TransitionInfo) (d : Dcl)
      → life x (tis ++ more) d ≡ life x more (life x tis d)
  unfolding life
  life-append [] more d = refl
  life-append (ti ∷ tis) more d = life-append tis more (dcl_after (ti.var == x) ti.transfer_func d)

pending_of_dirty : (d : Dcl) → is_dirty d ≡ true → is_pending d ≡ true
pending_of_dirty d h = ground arith

-- The life of a field that is written, and then not flushed or not fenced.
pub life_written :
    (x : ℕ) (ti : TransitionInfo) (tis : List TransitionInfo) (d : Dcl)
    → ti ≡ record { transfer_func = write_func; var = x }
    → Never (is_flush_of x) tis ⊎ Never (is_fence_of x) tis
    → is_pending (life x (ti ∷ tis) d) ≡ true
unfolding life
life_written x ti tis d w quiet = rw w (after quiet)
  where
    start : dcl_after (x == x) write_func d ≡ write_dcl
    start = unfold dcl_after in ground arith

    after :
        Never (is_flush_of x) tis ⊎ Never (is_fence_of x) tis
        → is_pending (life x tis (dcl_after (x == x) write_func d)) ≡ true
    after (inl n) = rw start (pending_of_dirty _ (life-dirty x tis write_dcl n refl))
    after (inr n) = rw start (life-pending x tis write_dcl n refl)

-- The life of a field that is flushed and fenced, and not written in between or after.
pub life_committed :
    (x : ℕ) (t1 : TransitionInfo) (tis1 : List TransitionInfo) (t2 : TransitionInfo)
    (tis2 : List TransitionInfo) (d : Dcl)
    → is_flush_of x t1 ≡ true
    → Never (is_write_of x) tis1
    → is_pfence_stmt t2 ≡ true
    → Never (is_write_of x) tis2
    → is_pending (life x (t1 ∷ tis1 ++ t2 ∷ tis2) d) ≡ false
unfolding life
life_committed x t1 tis1 t2 tis2 d f n1 p n2 =
    let d1 = dcl_after (t1.var == x) t1.transfer_func d in
    let d2 = life x tis1 d1 in
    rw (life-append x tis1 (t2 ∷ tis2) d1)
      (life-committed x tis2 _ n2 (fenced d2 (life-clean x tis1 d1 n1 flushed)))
  where
    flushed : is_dirty (dcl_after (t1.var == x) t1.transfer_func d) ≡ false
    flushed = unfold dcl_after in ground arith

    fenced :
        (e : Dcl)
        → is_dirty e ≡ false
        → is_pending (dcl_after (t2.var == x) t2.transfer_func e) ≡ false
    fenced e h = unfold dcl_after in ground arith
