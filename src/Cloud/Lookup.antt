-- ===== src/Cloud/Lookup.antt =====
-- Which snapshot the lookup by name finds.
use text.Mathlib.TextEquality.{eq_iff}
use scaleway_csi.Base.{
  String, ◌≡◌, ap, ◌∙◌, sym, true, false, List, [], ◌∷◌, ◌++◌, ◌↔◌, inl, inr, arith, All, ok, err,
  Bool-cases,
}
use scaleway_csi.Base.Text.{same_text}
use scaleway_csi.Cloud.{Snapshot, pick_snapshot, from_volume, snapshot_not_found}

module _ (name source : String) where
  abbrev pub IsOther : Snapshot → Type 0
  IsOther s = same_text s.name name ≡ false

  -- The first of the name, and taken from the volume as far as the API says.
  pub record Found (ss : List Snapshot) (s : Snapshot) : Type 0 where
    pub before : List Snapshot
    pub after : List Snapshot
    pub listed : ss ≡ before ++ s ∷ after
    pub others : All IsOther before
    pub named : s.name ≡ name
    pub taken : from_volume source s.base_volume ≡ true

  pub pick_snapshot_none :
      (ss : List Snapshot) → pick_snapshot name source ss ≡ err snapshot_not_found → All IsOther ss
  unfolding pick_snapshot
  pick_snapshot_none [] e = tt
  pick_snapshot_none (s ∷ ss) e = ground (arith, pick_snapshot_none ss)

  pub pick_snapshot_first :
      (before after : List Snapshot) (s : Snapshot)
      → All IsOther before
      → s.name ≡ name
      → from_volume source s.base_volume ≡ true
      → pick_snapshot name source (before ++ s ∷ after) ≡ ok s
  unfolding pick_snapshot
  pick_snapshot_first [] after s h n t = ground (arith, eq_iff s.name name)
  pick_snapshot_first (b ∷ before) after s (other, h) n t =
      ground (arith, pick_snapshot_first before after s h n t)

  pick_snapshot-Found :
      (ss : List Snapshot) {s : Snapshot} → pick_snapshot name source ss ≡ ok s → Found ss s
  unfolding pick_snapshot
  pick_snapshot-Found [] e = cc
  pick_snapshot-Found (x ∷ ss) {s} e = elim (Bool-cases (same_text x.name name)) [
    | inl mine ↦
        let same : x ≡ s = ground arith in
        record {
          before = [];
          after = ss;
          listed = ap (λ y. y ∷ ss) same;
          others = tt;
          named = sym (ap (λ y. y.name) same) ∙ (eq_iff x.name name).0 mine;
          taken = ground arith;
        }
    | inr other ↦
        let f = pick_snapshot-Found ss {s = s} (ground arith) in
        record {
          before = x ∷ f.before;
          after = f.after;
          listed = ap (λ r. x ∷ r) f.listed;
          others = (other, f.others);
          named = f.named;
          taken = f.taken;
        }
  ]

  -- A snapshot is found just if it is the first of the list with the name, and the API knows no
  -- volume of it or the given one.
  pub pick_snapshot_iff :
      (ss : List Snapshot) (s : Snapshot) → (pick_snapshot name source ss ≡ ok s) ↔ Found ss s
  pick_snapshot_iff ss s = (
    pick_snapshot-Found ss,
    λ f.
        ap (pick_snapshot name source) f.listed
        ∙ pick_snapshot_first f.before f.after s f.others f.named f.taken,
  )
