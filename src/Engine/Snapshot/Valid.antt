-- ===== src/Engine/Snapshot/Valid.antt =====
-- The shard that Restore of snapshot.go leaves is valid.
pub mod Group
pub mod Restored
use rule_engine.Prelude.{
  ℕ, suc, ◌<◌, ◌≤◌, ◌≡◌, ◌≢◌, refl, sym, ap, ◌∙◌, [], ◌∷◌, Option, none, some, arith, inl, inr,
  Option-cases, nat_beq, Bool-cases, Each,
}
use rule_engine.Text.{Text, text_eq, text_beq, text_beq_iff}
use rule_engine.Dict
use rule_engine.Dict.{Dict}
use rule_engine.Engine.Member.{MemberState}
use rule_engine.Engine.Shard.{Shard, Address, update, deref}
use rule_engine.Engine.Shard.Valid.{IsValid}
use rule_engine.Engine.Snapshot.{store_members}
use rule_engine.Engine.Snapshot.StoreGroup.{StoredMembers, store_members-StoredMembers, with_member}

module _ {F : Type 0} where
  -- The cells of members: free from `next` on, and no version newer than the epoch.
  pub record Cells (s : Shard F) : Type 0 where
    pub free : (a : Address) → s.next ≤ a → s.members a ≡ none
    pub versions : (a : Address) (m : MemberState F) → s.members a ≡ some m → m.version ≤ s.epoch

  -- what storing the members of a group makes of these cells
  pub record StoredCells (s s' : Shard F) (ids : Dict Text Address) : Type 0 where
    pub cells : Cells s'
    pub epoch : s'.epoch ≡ s.epoch
    pub frozen_epoch : s'.frozen_epoch ≡ s.frozen_epoch
    pub filled :
        (id : Text) (a : Address)
        → Dict.get ids id ≡ some a
        → (s.next ≤ a) × (ms : MemberState F) × (s'.members a ≡ some ms)
    pub apart :
        (i j : Text) (a : Address) → Dict.get ids i ≡ some a → Dict.get ids j ≡ some a → i ≡ j

  -- decoded members are unversioned
  abbrev pub Unstamped : Dict Text (MemberState F) → Type 0
  Unstamped = Each (λ (p : Text × MemberState F). p.1.version ≡ 0)

  with_member-Cells :
      (s : Shard F) (ms : MemberState F) → ms.version ≡ 0 → Cells s → Cells (with_member s ms)
  with_member-Cells s ms e c = record {
    free = λ a h. ground (arith, c.free a);
    versions = λ a m h. ground (arith, c.versions a m, e);
  }

  pub store_members-StoredCells :
      (s : Shard F) (members : Dict Text (MemberState F))
      → Unstamped members
      → Cells s
      → StoredCells s (store_members s members).0 (store_members s members).1
  unfolding store_members Dict.get
  store_members-StoredCells s [] h c = record {
    cells = c;
    epoch = refl;
    frozen_epoch = refl;
    filled = λ id a e. cc e;
    apart = λ i j a e e'. cc e;
  }
  store_members-StoredCells s ((k, ms) ∷ rest) (e, h) c =
      let r = store_members-StoredCells (with_member s ms) rest h (with_member-Cells s ms e c) in
      let t = store_members-StoredMembers (with_member s ms) rest in
      record {
        cells = r.cells;
        epoch = r.epoch;
        frozen_epoch = r.frozen_epoch;
        filled = λ id a found. elim (Bool-cases (text_beq k id)) [
          | inl here ↦
              let same : a ≡ s.next = ground (arith, found) in
              (
                omega (arith, same),
                ms,
                ap (store_members (with_member s ms) rest).0.members same
                    ∙ t.old s.next (omega arith)
                    ∙ ground arith,
              )
          | inr there ↦
              let (past, m, cell) = r.filled id a (ground (arith, found)) in
              (omega (arith, past), m, cell)
        ];
        apart = λ i j a p q. elim (Bool-cases (text_beq k i)) [
          | inl hi ↦ elim (Bool-cases (text_beq k j)) [
            | inl hj ↦ sym ((text_beq_iff k i).0 hi) ∙ (text_beq_iff k j).0 hj
            | inr hj ↦
                let same : a ≡ s.next = ground (arith, p) in
                let (past, m, cell) = r.filled j a (ground (arith, q)) in
                absurd (omega (arith, past, same))
          ]
          | inr hi ↦ elim (Bool-cases (text_beq k j)) [
            | inl hj ↦
                let same : a ≡ s.next = ground (arith, q) in
                let (past, m, cell) = r.filled i a (ground (arith, p)) in
                absurd (omega (arith, past, same))
            | inr hj ↦ r.apart i j a (ground (arith, p)) (ground (arith, q))
          ]
        ];
      }
