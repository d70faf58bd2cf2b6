-- ===== src/Controller/Interleaved/Totals.antt =====
-- A measure of the requests in flight, summed over them.
use scaleway_csi.Base.{
  ℕ, ◌+◌, ◌<◌, ◌≡◌, refl, ap, inl, inr, List, [], ◌∷◌, ◌++◌, arith, ltb, Bool-cases,
}
use scaleway_csi.Controller.Interleaved.{Phase}

module _ (measure : Phase → ℕ) where
  abbrev pub total : List Phase → ℕ
  total [] = 0
  total (p ∷ ps) = measure p + total ps

  pub total-append : (ps qs : List Phase) → total (ps ++ qs) ≡ total ps + total qs
  total-append [] qs = omega arith
  total-append (p ∷ ps) qs = omega (arith, total-append ps qs)

  -- A request whose measure is positive, with its place in the list.
  pub record Placed (ps : List Phase) : Type 0 where
    pub before : List Phase
    pub phase : Phase
    pub after : List Phase
    pub list_is : before ++ phase ∷ after ≡ ps
    pub positive : 0 < measure phase

  later : (p : Phase) (ps : List Phase) → Placed ps → Placed (p ∷ ps)
  later p ps l = record {
    before = p ∷ l.before;
    phase = l.phase;
    after = l.after;
    list_is = ap (◌∷◌ p) l.list_is;
    positive = l.positive;
  }

  -- A positive sum has a request like that.
  pub total-Placed : (ps : List Phase) → 0 < total ps → Placed ps
  total-Placed [] h = absurd (omega arith)
  total-Placed (p ∷ ps) h = elim (Bool-cases (ltb 0 (measure p))) [
    | inl here ↦ record {
      before = [];
      phase = p;
      after = ps;
      list_is = refl;
      positive = ground arith;
    }
    | inr behind ↦ later p ps (total-Placed ps (ground arith))
  ]
