-- ===== src/Startup/Subject.antt =====
-- Subjects of NATS: tokens that dots separate, and filters that end in the wildcard `>`.
use rule_engine.Prelude.{
  ℕ, zero, suc, ◌/◌, ◌%◌, ◌+◌, ◌<◌, ◌≡◌, ◌≢◌, ◌↔◌, sym, ap, ◌++◌, List, [], ◌∷◌, Bool, true, pos,
  arith, Each,
}
use mathlib.Core.List.{cons-ne-nil}
use rule_engine.Text.{Text, bytes, digits_fuel, digits}
use rule_engine.Text.Number.{digits-ne-nil, digits_injective}
use rule_engine.Startup.{filter_subject}

-- no space, no dot and no wildcard
abbrev pub IsTokenByte : ℕ → Type 0
IsTokenByte c = (b' ' < c) × (c ≢ b'.') × (c ≢ b'*') × (c ≢ b'>')

abbrev pub IsToken : Text → Type 0
IsToken s = (s ≢ []) × Each IsTokenByte s

-- the text of tokens
abbrev pub join : List Text → Text
join [] = []
join (t ∷ []) = t
join (t ∷ u ∷ ts) = t ++ b'.' ∷ join (u ∷ ts)

-- The documented matching of `>`: one or more tokens, after those before it.
abbrev pub IsMatching : (Text → Text → Bool) → Type 0
IsMatching matches =
    (ps ts : List Text)
    → Each IsToken ps
    → Each IsToken ts
    → (matches (join (ps ++ bytes ">" ∷ [])) (join ts) ≡ true)
      ↔ ((t : Text) × (rest : List Text) × (ts ≡ ps ++ t ∷ rest))

digits_fuel-token :
    (f n : ℕ) (acc : Text) → Each IsTokenByte acc → Each IsTokenByte (digits_fuel f n acc)
unfolding digits_fuel
digits_fuel-token zero n acc h = h
digits_fuel-token (suc f) n acc h =
    ground (arith, h, digits_fuel-token f (n / 10) ((b'0' + n % 10) ∷ acc))

digits-IsToken : (n : ℕ) → IsToken (digits n)
unfolding digits
digits-IsToken n = (digits-ne-nil n, digits_fuel-token (suc n) n [] tt)

rule-IsToken : IsToken (bytes "rule")
rule-IsToken = (cons-ne-nil _ _, ground arith)

events-IsToken : IsToken (bytes "events")
events-IsToken = (cons-ne-nil _ _, ground arith)

abbrev third : List Text → Text
third (a ∷ b ∷ c ∷ _) = c
third _ = []

-- A filter for a shard takes the subjects of that shard and of no other.
pub filter_subject-matches :
    (matches : Text → Text → Bool) (s k : ℕ) (member_id : Text)
    → IsMatching matches
    → IsToken member_id
    → (matches
          (filter_subject (pos s))
          (bytes "rule.events" ++ b'.' ∷ (digits k ++ b'.' ∷ member_id))
        ≡ true)
      ↔ (s ≡ k)
unfolding filter_subject
filter_subject-matches matches s k member_id lawful token =
    let (there, back) =
      lawful (bytes "rule" ∷ bytes "events" ∷ digits s ∷ [])
        (bytes "rule" ∷ bytes "events" ∷ digits k ∷ member_id ∷ [])
        (rule-IsToken, (events-IsToken, (digits-IsToken s, tt)))
        (rule-IsToken, (events-IsToken, (digits-IsToken k, (token, tt)))) in
    (
      λ h. let (t, rest, e) = there h in digits_injective s k (sym (ap third e)),
      λ e. back (
        member_id,
        [],
        ap (λ n. bytes "rule" ∷ bytes "events" ∷ digits n ∷ member_id ∷ []) (sym e),
      ),
    )
