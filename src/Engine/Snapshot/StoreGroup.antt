-- ===== src/Engine/Snapshot/StoreGroup.antt =====
-- One decoded key group of Restore in snapshot.go: what its slot holds, and that the others keep.
use rule_engine.Prelude.{
  ℕ, suc, ◌<◌, ◌≤◌, ◌≡◌, ◌≢◌, refl, sym, ap, ◌∙◌, [], ◌∷◌, Option, none, some, arith, inl, inr,
  Option-cases, nat_beq, nat_eq, Bool-cases,
}
use rule_engine.Text.{Text, text_eq}
use rule_engine.Dict
use rule_engine.Dict.{Dict}
use rule_engine.Engine.KeyGroup.{key_group_of}
use rule_engine.Engine.Member.{MemberState}
use rule_engine.Engine.Shard.{
  Shard, Address, update, deref, find_in_group, address_in, member_in, member,
}
use rule_engine.Engine.Snapshot.{store_members, store_group}

module _ {F : Type 0} where
  -- the member of a key group
  abbrev pub lookup : Shard F → ℕ → Text → Option (MemberState F)
  lookup s kg id = deref s.members (find_in_group (deref s.groups (s.state kg)) id)

  pub member-lookup : (s : Shard F) (id : Text) → member s id ≡ lookup s (key_group_of id) id
  unfolding member member_in address_in
  member-lookup s id = refl

  -- What the slots reach lies below the next free address.
  pub record IsBelow (s : Shard F) : Type 0 where
    pub slots : (kg : ℕ) (b : Address) → s.state kg ≡ some b → b < s.next
    pub entries :
        (kg : ℕ) (id : Text) (m : Address)
        → find_in_group (deref s.groups (s.state kg)) id ≡ some m
        → m < s.next

  -- the shard and the addresses after the members were stored
  pub record StoredMembers (s s' : Shard F) (members : Dict Text (MemberState F))
      (ids : Dict Text Address) : Type 0 where
    pub next : s.next ≤ s'.next
    pub groups : (b : Address) → s'.groups b ≡ s.groups b
    pub state : (kg : ℕ) → s'.state kg ≡ s.state kg
    pub old : (a : Address) → a < s.next → s'.members a ≡ s.members a
    pub found : (id : Text) → deref s'.members (Dict.get ids id) ≡ Dict.get members id
    pub below : (id : Text) (a : Address) → Dict.get ids id ≡ some a → a < s'.next

  -- the shard with one member stored
  abbrev pub with_member : Shard F → MemberState F → Shard F
  with_member s ms = record s { members = update s.members s.next ms; next = suc s.next }

  pub store_members-StoredMembers :
      (s : Shard F) (members : Dict Text (MemberState F))
      → StoredMembers s (store_members s members).0 members (store_members s members).1
  unfolding store_members Dict.get
  store_members-StoredMembers s [] = record {
    next = omega arith;
    groups = λ b. refl;
    state = λ kg. refl;
    old = λ a lt. refl;
    found = λ id. refl;
    below = λ id a e. cc e;
  }
  store_members-StoredMembers s ((k, ms) ∷ rest) =
      let r = store_members-StoredMembers (with_member s ms) rest in
      record {
        next = omega (arith, r.next);
        groups = r.groups;
        state = r.state;
        old = λ a lt. r.old a (omega arith) ∙ ground (arith, lt);
        found = λ id.
            let here = r.old s.next (omega arith) in
            let there = r.found id in ground (arith, here, there);
        below = λ id a e. let there = r.below id a in let past = r.next in ground (arith, e);
      }

  -- the slot of the stored key group, and the other slots
  pub record StoredGroup (s s' : Shard F) (kg : ℕ) (members : Dict Text (MemberState F))
      : Type 0 where
    pub below : IsBelow s'
    pub found : (id : Text) → lookup s' kg id ≡ Dict.get members id
    pub others : (k : ℕ) (id : Text) → k ≢ kg → lookup s' k id ≡ lookup s k id

  module _ (s : Shard F) (kg : ℕ) (members : Dict Text (MemberState F)) (b : IsBelow s) where
    abbrev s1 : Shard F
    s1 = (store_members s members).0

    abbrev ids : Dict Text Address
    ids = (store_members s members).1

    abbrev r : StoredMembers s s1 members ids
    r = store_members-StoredMembers s members

    pub own_slot :
        (id : Text)
        → find_in_group
            (deref (store_group s kg members).groups ((store_group s kg members).state kg))
            id
          ≡ Dict.get ids id
    unfolding store_group find_in_group
    own_slot id = ground arith

    pub other_cell :
        (k : ℕ)
        → k ≢ kg
        → deref (store_group s kg members).groups ((store_group s kg members).state k)
          ≡ deref s.groups (s.state k)
    unfolding store_group
    other_cell k ne = elim (Option-cases (s.state k)) [
      | inl e ↦ let same = r.state k in ground (arith, e)
      | inr (a, e) ↦
          let same = r.state k in
          let lt = b.slots k a e in let past = r.next in let cell = r.groups a in ground (arith, e)
    ]

    members-store_group : (a : Address) → (store_group s kg members).members a ≡ s1.members a
    unfolding store_group
    members-store_group a = refl

    next-store_group : (store_group s kg members).next ≡ suc s1.next
    unfolding store_group
    next-store_group = refl

    slots-store_group :
        (k : ℕ) (a : Address)
        → (store_group s kg members).state k ≡ some a
        → a < (store_group s kg members).next
    unfolding store_group
    slots-store_group k a e =
        let same = r.state k in let lt = b.slots k a in let past = r.next in ground (arith, e)

    other_member :
        (o : Option Address)
        → ((m : Address) → o ≡ some m → m < s.next)
        → deref (store_group s kg members).members o ≡ deref s.members o
    other_member none lt = refl
    other_member (some m) lt = members-store_group m ∙ r.old m (lt m refl)

    others : (k : ℕ) (id : Text) → k ≢ kg → lookup (store_group s kg members) k id ≡ lookup s k id
    others k id ne =
        ap (λ g. deref (store_group s kg members).members (find_in_group g id)) (other_cell k ne)
        ∙ other_member (find_in_group (deref s.groups (s.state k)) id) (b.entries k id)

    found : (id : Text) → lookup (store_group s kg members) kg id ≡ Dict.get members id
    found id =
        ap (deref (store_group s kg members).members) (own_slot id)
        ∙ unfold store_group in r.found id

    own_entries :
        (k : ℕ) (id : Text) (m : Address)
        → k ≡ kg
        → find_in_group
            (deref (store_group s kg members).groups ((store_group s kg members).state k))
            id
          ≡ some m
        → m < (store_group s kg members).next
    own_entries k id m same e =
        let here =
          sym (own_slot id)
          ∙ ap
              (λ j.
                find_in_group
                  (deref (store_group s kg members).groups ((store_group s kg members).state j)) id)
              (sym same)
          ∙ e in
        omega (arith, r.below id m here, next-store_group)

    other_entries :
        (k : ℕ) (id : Text) (m : Address)
        → k ≢ kg
        → find_in_group
            (deref (store_group s kg members).groups ((store_group s kg members).state k))
            id
          ≡ some m
        → m < (store_group s kg members).next
    other_entries k id m ne e =
        let there = sym (ap (λ g. find_in_group g id) (other_cell k ne)) ∙ e in
        omega (arith, b.entries k id m there, r.next, next-store_group)

    pub store_group-StoredGroup : StoredGroup s (store_group s kg members) kg members
    store_group-StoredGroup = record {
      below = record {
        slots = slots-store_group;
        entries = λ k id m e. elim (Bool-cases (nat_beq k kg)) [
          | inl same ↦ own_entries k id m (ground arith) e
          | inr other ↦ other_entries k id m (λ q. ground arith) e
        ];
      };
      found = found;
      others = others;
    }
