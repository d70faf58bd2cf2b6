-- ===== src/Ids/Format.antt =====
-- Reading identifiers: what is accepted, and the round trip with `expand_id`.
use Prim.Native.Char.{Char, code}
use text.Mathlib.TextEquality.{eq_iff}
use text.Mathlib.TextLemmas.{cons-append, nil-append, cons-ne-nil}
use scaleway_csi.Base.{
  String, ◌<>◌, ◌≡◌, refl, sym, ℕ, suc, ◌≤◌, ◌<◌, ◌==◌, length, ◌↔◌, ◌∙◌, ◌≢◌, inl, inr, Option,
  none, some, List, [], ◌∷◌, arith, if◌then◌else◌, ok, err, Failure, status, invalid_argument,
  Bool-cases, false, ap,
}
use scaleway_csi.Base.Text.{
  split, same_text, Lacks, onto_first, split-ne-nil, split_of_Lacks, split-append,
}
use scaleway_csi.Ids.{Zone, expand_id, zone_and_id, extract_id_and_zone}

slash_in_front : (i : String) → "/" <> i ≡ String.◌∷◌ "/" i
slash_in_front i = cons-append "/" "" i ∙ ap (String.◌∷◌ "/") (nil-append i)

split-expand_id :
    (zone id : String)
    → Lacks b'/' zone
    → Lacks b'/' id
    → split b'/' (expand_id zone id) ≡ zone ∷ id ∷ []
split-expand_id zone id hz hi =
    ap (λ s. split b'/' (zone <> s)) (slash_in_front id)
    ∙ split-append b'/' "/" zone id hz refl
    ∙ ap (λ r. zone ∷ r) (split_of_Lacks b'/' id hi)

split-ne : (zone id : String) → expand_id zone id ≢ ""
split-ne String.[] id e = cons-ne-nil "/" id (sym (slash_in_front id) ∙ sym (nil-append _) ∙ e)
split-ne (String.◌∷◌ c z) id e = cons-ne-nil c _ (sym (cons-append c z _) ∙ e)

-- The slash makes the identifier a text that is not empty.
expand_id-ne-nil : (zone id : String) → same_text (expand_id zone id) "" ≡ false
expand_id-ne-nil zone id = elim (Bool-cases (same_text (expand_id zone id) "")) [
  | inl e ↦ absurd (split-ne zone id ((eq_iff _ _).0 e))
  | inr e ↦ e
]

-- How often a code point stands in a text.
abbrev pub occurrences : ℕ → String → ℕ
occurrences sep String.[] = 0
occurrences sep (String.◌∷◌ c s) =
    if code c == sep then suc (occurrences sep s) else occurrences sep s

length-onto_first : (c : Char) (ps : List String) → ps ≢ [] → length (onto_first c ps) ≡ length ps
length-onto_first c [] h = absurd (h refl)
length-onto_first c (p ∷ ps) h = refl

length-split : (sep : ℕ) (s : String) → length (split sep s) ≡ suc (occurrences sep s)
unfolding split
length-split sep String.[] = refl
length-split sep (String.◌∷◌ c s) =
    ground (arith, length-split sep s, length-onto_first c (split sep s) (split-ne-nil sep s))

module _ (parse_zone : String → Option Zone) (name : String) where
  abbrev zone_or_default : Zone → Zone
  zone_or_default zone = elim (parse_zone zone) [ none ↦ "" | some z ↦ z ]

  -- For a zone and an id without a slash, writing the two and reading the text back gives that id,
  -- and the zone that the SDK parses, or the default zone if it knows no such zone.
  pub extract_id_and_zone-expand_id :
      (zone id : String)
      → Lacks b'/' zone
      → Lacks b'/' id
      → extract_id_and_zone parse_zone (expand_id zone id) name ≡ ok (id, zone_or_default zone)
  unfolding extract_id_and_zone
  extract_id_and_zone-expand_id zone id hz hi =
      rw (expand_id-ne-nil zone id, split-expand_id zone id hz hi) (ground arith)

  zone_and_id-ok_iff :
      (parts : List String)
      → ((r : String × Zone) × (zone_and_id parse_zone name parts ≡ ok r))
        ↔ ((0 < length parts) × (length parts ≤ 2))
  unfolding zone_and_id
  zone_and_id-ok_iff [] = (λ (r, e). cc, λ h. absurd (omega arith))
  zone_and_id-ok_iff (id ∷ []) = (λ _. omega arith, λ _. ((id, ""), refl))
  zone_and_id-ok_iff (zone ∷ id ∷ []) =
      (λ _. omega arith, λ _. ((id, zone_or_default zone), ground arith))
  zone_and_id-ok_iff (a ∷ b ∷ c ∷ ps) = (λ (r, e). cc, λ h. absurd (omega arith))

  zone_and_id_refusal :
      (parts : List String) (f : Failure)
      → parts ≢ []
      → zone_and_id parse_zone name parts ≡ err f
      → (text : String) × (f ≡ status invalid_argument text)
  unfolding zone_and_id
  zone_and_id_refusal [] f ne e = absurd (ne refl)
  zone_and_id_refusal (id ∷ []) f ne e = cc
  zone_and_id_refusal (zone ∷ id ∷ []) f ne e = ground arith
  zone_and_id_refusal (a ∷ b ∷ c ∷ ps) f ne e = ("wrong format for " <> name, ground arith)

  -- An identifier is read just if it is not empty and has at most one slash.
  pub extract_id_and_zone-ok_iff :
      (id : String)
      → ((r : String × Zone) × (extract_id_and_zone parse_zone id name ≡ ok r))
        ↔ ((id ≢ "") × (occurrences b'/' id ≤ 1))
  unfolding extract_id_and_zone
  extract_id_and_zone-ok_iff id = elim (Bool-cases (same_text id "")) [
    | inl e ↦ rw e (λ (r, h). cc, λ (ne, _). absurd (ne ((eq_iff _ _).0 e)))
    | inr e ↦
        rw e (grind (arith, eq_iff id "", length-split b'/' id, zone_and_id-ok_iff (split b'/' id)))
  ]

  -- An identifier that is not read is refused as an invalid argument; the reading never panics.
  pub extract_id_and_zone_refusal :
      (id : String) (f : Failure)
      → extract_id_and_zone parse_zone id name ≡ err f
      → (text : String) × (f ≡ status invalid_argument text)
  unfolding extract_id_and_zone
  extract_id_and_zone_refusal id f e = elim (Bool-cases (same_text id "")) [
    | inl empty ↦ (name <> " is not provided", ground arith)
    | inr more ↦ zone_and_id_refusal (split b'/' id) f (split-ne-nil b'/' id) (ground arith)
  ]
