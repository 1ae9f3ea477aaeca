-- ===== src/Tests/Subjects.antt =====
-- A matching of subjects and filters, token by token.
use rule_engine.Prelude.{
  ℕ, ◌≡◌, ◌≢◌, ◌↔◌, refl, sym, ap, ◌∙◌, ◌++◌, List, [], ◌∷◌, Bool, true, false, ◌&&◌, nat_beq,
  arith, Each, Each-map, Each-append, ◌==◌, if◌then◌else◌,
}
use mathlib.Core.List.{nil≢cons}
use mathlib.Core.Bool.{false≢true}
use rule_engine.Text.{Text, text_eq, text_beq, text_beq_iff, bytes}
use rule_engine.Startup.Subject.{IsToken, IsTokenByte, IsMatching, join}

abbrev onto_first : ℕ → List Text → List Text
onto_first c [] = (c ∷ []) ∷ []
onto_first c (p ∷ ps) = (c ∷ p) ∷ ps

-- the parts between dots
abbrev parts : Text → List Text
parts [] = [] ∷ []
parts (c ∷ s) = let rest = parts s in if nat_beq c b'.' then [] ∷ rest else onto_first c rest

abbrev match_tokens : List Text → List Text → Bool
match_tokens [] ts = false
match_tokens (p ∷ ps) [] = false
match_tokens (p ∷ []) (t ∷ ts) = p == bytes ">"
match_tokens (p ∷ q ∷ ps) (t ∷ ts) = let rest = match_tokens (q ∷ ps) ts in p == t && rest

abbrev pub subject_matches : Text → Text → Bool
subject_matches filter [] = false
subject_matches filter (c ∷ s) = match_tokens (parts filter) (parts (c ∷ s))

abbrev Undotted : Text → Type 0
Undotted t = Each (λ c. c ≢ b'.') t

parts-Undotted : (t : Text) → Undotted t → parts t ≡ t ∷ []
parts-Undotted [] h = refl
parts-Undotted (c ∷ t) h = ground (arith, h, parts-Undotted t h.1)

parts_dot : (t s : Text) → Undotted t → parts (t ++ b'.' ∷ s) ≡ t ∷ parts s
parts_dot [] s h = refl
parts_dot (c ∷ t) s h = ground (arith, h, parts_dot t s h.1)

parts-join :
    (t : Text) (ts : List Text) → Undotted t → Each Undotted ts → parts (join (t ∷ ts)) ≡ t ∷ ts
parts-join t [] h hs = parts-Undotted t h
parts-join t (u ∷ ts) h hs =
    parts_dot t (join (u ∷ ts)) h ∙ ap (λ l. t ∷ l) (parts-join u ts hs.0 hs.1)

token-Undotted : (t : Text) → IsToken t → Undotted t
token-Undotted t h = Each-map IsTokenByte (λ c. c ≢ b'.') t (λ c hc. hc.1) h.1

filter-Undotted : (ps : List Text) → Each IsToken ps → Each Undotted (ps ++ bytes ">" ∷ [])
filter-Undotted ps h =
    Each-append Undotted ps (bytes ">" ∷ []) (Each-map IsToken Undotted ps token-Undotted h)
      ((omega arith, tt), tt)

parts_filter :
    (ps : List Text) → Each IsToken ps → parts (join (ps ++ bytes ">" ∷ [])) ≡ ps ++ bytes ">" ∷ []
parts_filter [] h = refl
parts_filter (p ∷ ps) h =
    parts-join p (ps ++ bytes ">" ∷ []) (token-Undotted p h.0) (filter-Undotted ps h.1)

match_cons :
    (p t : Text) (ps ts : List Text)
    → match_tokens (p ∷ (ps ++ bytes ">" ∷ [])) (t ∷ ts)
      ≡ (p == t && match_tokens (ps ++ bytes ">" ∷ []) ts)
match_cons p t [] ts = refl
match_cons p t (q ∷ ps) ts = refl

match_end : (p : Text) (ps : List Text) → match_tokens (p ∷ (ps ++ bytes ">" ∷ [])) [] ≡ false
match_end p [] = refl
match_end p (q ∷ ps) = refl

match_filter :
    (ps ts : List Text)
    → (match_tokens (ps ++ bytes ">" ∷ []) ts ≡ true)
      ↔ ((t : Text) × (rest : List Text) × (ts ≡ ps ++ t ∷ rest))
unfolding text_beq
match_filter [] [] = (λ h. absurd (false≢true h), λ (t, rest, e). absurd (nil≢cons e))
match_filter [] (t ∷ ts) = (λ h. (t, ts, refl), λ h. refl)
match_filter (p ∷ ps) [] =
    (λ h. absurd (false≢true (sym (match_end p ps) ∙ h)), λ (t, rest, e). absurd (nil≢cons e))
match_filter (p ∷ ps) (t ∷ ts) =
    let (there, back) = match_filter ps ts in
    (
      λ h.
          let (same, later) =
            both (text_beq p t) (match_tokens (ps ++ bytes ">" ∷ []) ts)
              (sym (match_cons p t ps ts) ∙ h) in
          let (u, rest, e) = there later in
          (
            u,
            rest,
            ap (λ l. t ∷ l) e ∙ ap (λ x. x ∷ (ps ++ u ∷ rest)) (sym ((text_beq_iff p t).0 same)),
          ),
      λ (u, rest, e).
          match_cons p t ps ts
          ∙ ground
              (arith, (text_beq_iff p t).1 (sym (ap (first_or t) e)), back (u, rest, ap tail_of e)),
    )
  where
    both : (a b : Bool) → (a && b) ≡ true → (a ≡ true) × (b ≡ true)
    both a b h = ground arith

    first_or : Text → List Text → Text
    first_or x [] = x
    first_or x (y ∷ ys) = y

    tail_of : List Text → List Text
    tail_of [] = []
    tail_of (y ∷ ys) = ys

matches-parts :
    (filter t : Text) (ts : List Text)
    → IsToken t
    → subject_matches filter (join (t ∷ ts)) ≡ match_tokens (parts filter) (parts (join (t ∷ ts)))
matches-parts filter [] ts h = absurd (h.0 refl)
matches-parts filter (c ∷ t) [] h = refl
matches-parts filter (c ∷ t) (u ∷ ts) h = refl

pub subject_matches-IsMatching : IsMatching subject_matches
subject_matches-IsMatching [] [] hp ht =
    (λ h. absurd (false≢true h), λ (t, rest, e). absurd (nil≢cons e))
subject_matches-IsMatching (p ∷ ps) [] hp ht =
    (λ h. absurd (false≢true h), λ (t, rest, e). absurd (nil≢cons e))
subject_matches-IsMatching ps (t ∷ ts) hp ht =
    let step =
      matches-parts (join (ps ++ bytes ">" ∷ [])) t ts ht.0
      ∙ ap (λ l. match_tokens l (parts (join (t ∷ ts)))) (parts_filter ps hp)
      ∙ ap (match_tokens (ps ++ bytes ">" ∷ [])) (
          parts-join t ts (token-Undotted t ht.0)
            (Each-map IsToken Undotted ts token-Undotted ht.1)) in
    let (there, back) = match_filter ps (t ∷ ts) in
    (λ h. there (sym step ∙ h), λ found. step ∙ back found)
