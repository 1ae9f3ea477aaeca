-- ===== src/Engine/Snapshot/Valid/Group.antt =====
-- One decoded key group of Restore keeps the shard valid.
use rule_engine.Prelude.{
  ltb, ◌⊎◌, ℕ, suc, ◌<◌, ◌≤◌, ◌≡◌, ◌≢◌, refl, sym, ap, ◌∙◌, Option, none, some, arith, inl, inr,
  nat_beq, nat_beq_iff, Bool-cases,
}
use rule_engine.Text.{Text, text_eq}
use rule_engine.Dict
use rule_engine.Dict.{Dict}
use rule_engine.Engine.KeyGroup.{key_group_of}
use rule_engine.Engine.Member.{MemberState}
use rule_engine.Engine.Shard.{Shard, Address, KeyGroupState, deref, find_in_group, address_in}
use rule_engine.Engine.Shard.Valid.{IsValid}
use rule_engine.Engine.Snapshot.{store_members, store_group}
use rule_engine.Engine.Snapshot.StoreGroup.{IsBelow, StoredMembers, store_members-StoredMembers}
use rule_engine.Engine.Snapshot.Valid.{StoredCells, Unstamped, store_members-StoredCells}

below_next :
    {A : Type 0} (cells : ℕ → Option A) (n a : ℕ) (x : A)
    → ((b : ℕ) → n ≤ b → cells b ≡ none)
    → cells a ≡ some x
    → a < n
below_next cells n a x free e = elim (Bool-cases (ltb a n)) [
  | inl h ↦ ground arith
  | inr h ↦ let empty = free a (ground arith) in cc (empty, e)
]

module _ {F : Type 0} where
  -- where the member of an id lies
  address_lem :
      (s : Shard F) (id : Text) (m : Address)
      → address_in s s.state id ≡ some m
      → (b : Address) × (g : KeyGroupState) × (s.state (key_group_of id) ≡ some b)
        × (s.groups b ≡ some g)
        × (Dict.get g.members id ≡ some m)
  unfolding address_in find_in_group
  address_lem s id m e = ground arith

  address_from :
      (s : Shard F) (id : Text) (b m : Address) (g : KeyGroupState)
      → s.state (key_group_of id) ≡ some b
      → s.groups b ≡ some g
      → Dict.get g.members id ≡ some m
      → address_in s s.state id ≡ some m
  unfolding address_in find_in_group
  address_from s id b m g p q e = ground arith

  pub IsValid-IsBelow : (s : Shard F) → IsValid s → IsBelow s
  unfolding find_in_group
  IsValid-IsBelow s v = record {
    slots = λ kg b e.
        let (g, cell) = v.slots kg b e in below_next s.groups s.next b g v.free_groups cell;
    entries = λ kg id m e.
        let (b, g, slot, cell, there) = group_lem s kg id m e in
        let (ms, held) = v.entries kg b g id m slot cell there in
        below_next s.members s.next m ms v.free_members held;
  }
    where
      group_lem :
          (s : Shard F) (kg : ℕ) (id : Text) (m : Address)
          → find_in_group (deref s.groups (s.state kg)) id ≡ some m
          → (b : Address) × (g : KeyGroupState) × (s.state kg ≡ some b)
            × (s.groups b ≡ some g)
            × (Dict.get g.members id ≡ some m)
      group_lem s kg id m e = ground arith

  module _ (s : Shard F) (kg : ℕ) (members : Dict Text (MemberState F)) (v : IsValid s)
      (h : Unstamped members) where
    abbrev s1 : Shard F
    s1 = (store_members s members).0

    abbrev s2 : Shard F
    s2 = store_group s kg members

    abbrev ids : Dict Text Address
    ids = (store_members s members).1

    abbrev r : StoredMembers s s1 members ids
    r = store_members-StoredMembers s members

    abbrev t : StoredCells s s1 ids
    t =
        store_members-StoredCells s members h
          (record { free = v.free_members; versions = v.member_versions })

    abbrev own : KeyGroupState
    own = record { members = ids; version = 0 }

    -- a slot is the stored one, or an old one of another key group
    slot_cases :
        (k : ℕ) (a : Address)
        → s2.state k ≡ some a
        → ((k ≡ kg) × (a ≡ s1.next)) ⊎ ((k ≢ kg) × (s.state k ≡ some a) × (a < s.next))
    unfolding store_group
    slot_cases k a e = elim (Bool-cases (nat_beq kg k)) [
      | inl same ↦ inl (sym ((nat_beq_iff kg k).0 same), ground (arith, e, same))
      | inr other ↦
          let old : s.state k ≡ some a = sym (r.state k) ∙ ground (arith, e, other) in
          inr (λ q. ground (arith, other), old, (IsValid-IsBelow s v).slots k a old)
    ]

    cells-own : s2.groups s1.next ≡ some own
    unfolding store_group
    cells-own = ground arith

    cells-old : (a : Address) → a < s.next → s2.groups a ≡ s.groups a
    unfolding store_group
    cells-old a lt = let past = r.next in ground (arith, r.groups a, lt)

    group_cases :
        (k : ℕ) (b : Address) (g : KeyGroupState)
        → s2.state k ≡ some b
        → s2.groups b ≡ some g
        → ((k ≡ kg) × (g ≡ own)) ⊎ ((k ≢ kg) × (s.state k ≡ some b) × (s.groups b ≡ some g))
    group_cases k b g slot cell = elim (slot_cases k b slot) [
      | inl (same, new) ↦ inl (same, cc (cell, new, cells-own))
      | inr (other, old, lt) ↦ inr (other, old, sym (cells-old b lt) ∙ cell)
    ]

    address_cases :
        (i : Text) (m : Address)
        → address_in s2 s2.state i ≡ some m
        → ((key_group_of i ≡ kg) × (Dict.get ids i ≡ some m) × (s.next ≤ m))
          ⊎ ((address_in s s.state i ≡ some m) × (m < s.next))
    address_cases i m e =
        let (b, g, slot, cell, there) = address_lem s2 i m e in
        elim (group_cases (key_group_of i) b g slot cell) [
          | inl (same, new) ↦
              let found : Dict.get ids i ≡ some m =
                sym (ap (λ x. Dict.get x.members i) new) ∙ there in
              inl (same, found, (t.filled i m found).0)
          | inr (other, old, held) ↦
              let (ms, live) = v.entries (key_group_of i) b g i m old held there in
              inr (
                address_from s i b m g old held there,
                below_next s.members s.next m ms v.free_members live,
              )
        ]

    next-s2 : s2.next ≡ suc s1.next
    unfolding store_group
    next-s2 = refl

    members-s2 : (a : Address) → s2.members a ≡ s1.members a
    unfolding store_group
    members-s2 a = refl

    epochs-s2 : (s2.epoch ≡ s.epoch) × (s2.frozen_epoch ≡ s.frozen_epoch)
    unfolding store_group
    epochs-s2 = (t.epoch, t.frozen_epoch)

    free-s2 : (a : Address) → s2.next ≤ a → s2.groups a ≡ none
    unfolding store_group
    free-s2 a past = let later = r.next in ground (arith, r.groups a, v.free_groups a, past)

    versions-s2 : (a : Address) (g : KeyGroupState) → s2.groups a ≡ some g → g.version ≤ s.epoch
    unfolding store_group
    versions-s2 a g e = ground (arith, r.groups a, v.group_versions a g, e)

    entries-s2 :
        (k : ℕ) (a : Address) (g : KeyGroupState) (id : Text) (m : Address)
        → s2.state k ≡ some a
        → s2.groups a ≡ some g
        → Dict.get g.members id ≡ some m
        → (ms : MemberState F) × (s2.members m ≡ some ms)
    entries-s2 k a g id m slot cell there = elim (group_cases k a g slot cell) [
      | inl (same, new) ↦
          let (past, ms, live) =
            t.filled id m (sym (ap (λ x. Dict.get x.members id) new) ∙ there) in
          (ms, members-s2 m ∙ live)
      | inr (other, old, held) ↦
          let (ms, live) = v.entries k a g id m old held there in
          (ms, members-s2 m ∙ r.old m (below_next s.members s.next m ms v.free_members live) ∙ live)
    ]

    pub store_group-IsValid : IsValid s2
    store_group-IsValid = record {
      free_groups = free-s2;
      free_members = λ a past. members-s2 a ∙ t.cells.free a (omega (arith, past, next-s2));
      epochs = omega (arith, v.epochs, epochs-s2.0, epochs-s2.1);
      slots = λ k a e. elim (slot_cases k a e) [
        | inl (same, new) ↦ (own, ap s2.groups new ∙ cells-own)
        | inr (other, old, lt) ↦ let (g, held) = v.slots k a old in (g, cells-old a lt ∙ held)
      ];
      entries = entries-s2;
      group_versions = λ a g e. omega (arith, versions-s2 a g e, epochs-s2.0);
      member_versions = λ a m e.
          omega (arith, t.cells.versions a m (sym (members-s2 a) ∙ e), epochs-s2.0, t.epoch);
      slots_apart = λ j k a p q. elim (slot_cases j a p) [
        | inl (hj, new) ↦ elim (slot_cases k a q) [
          | inl (hk, new') ↦ hj ∙ sym hk
          | inr (hk, old, lt) ↦ absurd (omega (arith, new, lt, r.next))
        ]
        | inr (hj, old, lt) ↦ elim (slot_cases k a q) [
          | inl (hk, new) ↦ absurd (omega (arith, new, lt, r.next))
          | inr (hk, old', lt') ↦ v.slots_apart j k a old old'
        ]
      ];
      members_apart = λ i j m p q. elim (address_cases i m p) [
        | inl (hi, own_i, past) ↦ elim (address_cases j m q) [
          | inl (hj, own_j, past') ↦ t.apart i j m own_i own_j
          | inr (old, lt) ↦ absurd (omega (arith, past, lt))
        ]
        | inr (old, lt) ↦ elim (address_cases j m q) [
          | inl (hj, own_j, past) ↦ absurd (omega (arith, past, lt))
          | inr (old', lt') ↦ v.members_apart i j m old old'
        ]
      ];
    }
