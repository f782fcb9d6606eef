-- ===== src/Publishers/Members.antt =====
-- The relation that the table of crates/sidevers-net/src/provenance.rs keeps between objects and sides.
use sidevers_protocol.Cbor.Writer.{Bytes}
use sidevers_protocol.Common.{
  ◌≡◌, refl, sym, ap, ◌∙◌, subst, ◌↔◌, inl, inr, Bool, true, false, ◌&&◌, Option, none, some, List,
  [], ◌∷◌, arith, if◌then◌else◌, Bool-cases,
}
use sidevers_protocol.Common.Eq.{bytes_Eq}
use sidevers_protocol.Publishers.{
  PublisherTable, contains, add, discard, or_default, note_publisher, has_publisher, put_back,
  drop_publisher,
}
use sidevers_protocol.Table.{lookup}
use sidevers_protocol.Table.Laws.{lookup-insert, lookup-remove, beq_self}

pub contains-add :
    (t side : Bytes) (set : List Bytes)
    → contains t (add side set) ≡ (if bytes_Eq.beq side t then true else contains t set)
unfolding contains add
contains-add t side set = elim (Bool-cases (contains side set)) [
  | inl x ↦ elim (Bool-cases (bytes_Eq.beq side t)) [
    | inl y ↦
        rw (x, y) (subst (λ (b : Bytes). contains b set ≡ true) ((bytes_Eq.beq_iff side t).0 y) x)
    | inr y ↦ rw (x, y) refl
  ]
  | inr x ↦ rw x refl
]

contains-discard :
    (t side : Bytes) (set : List Bytes)
    → contains t (discard side set) ≡ (if bytes_Eq.beq side t then false else contains t set)
unfolding contains discard
contains-discard t side [] = ground arith
contains-discard t side (u ∷ set) = ground (
  arith,
  contains-discard t side set,
  bytes_Eq.beq_iff u side,
  bytes_Eq.beq_iff side t,
  bytes_Eq.beq_iff u t,
)

-- Whether a set of the table has the side.
abbrev has : Bytes → Option (List Bytes) → Bool
has side o = contains side (or_default o)

has-some : (side : Bytes) (set : List Bytes) → has side (some set) ≡ contains side set
unfolding or_default
has-some side set = refl

has-none : (side : Bytes) → has side none ≡ false
unfolding or_default contains
has-none side = refl

has_publisher-has :
    (hash side : Bytes) (tab : PublisherTable)
    → has_publisher hash side tab ≡ has side (lookup hash tab)
unfolding has_publisher
has_publisher-has hash side tab = go (lookup hash tab)
  where
    go :
        (o : Option (List Bytes))
        → elim o [ none ↦ false | some set ↦ contains side set ] ≡ has side o
    go none = unfold contains or_default in refl
    go (some set) = unfold or_default in refl

-- After a side is noted as a publisher of an object, it is one, and every other pair is as before.
pub has_publisher-note_publisher :
    (hash side h t : Bytes) (tab : PublisherTable)
    → has_publisher h t (note_publisher hash side tab)
      ≡ (if bytes_Eq.beq hash h && bytes_Eq.beq side t then true else has_publisher h t tab)
unfolding note_publisher
has_publisher-note_publisher hash side h t tab =
    has_publisher-has h t _
    ∙ rw (lookup-insert hash h (add side (or_default (lookup hash tab))) tab)
        (elim (Bool-cases (bytes_Eq.beq hash h)) [
          | inl x ↦ rw x (noted x)
          | inr x ↦ rw x (sym (has_publisher-has h t tab))
        ])
  where
    noted :
        bytes_Eq.beq hash h ≡ true
        → has t (some (add side (or_default (lookup hash tab))))
          ≡ (if bytes_Eq.beq side t then true else has_publisher h t tab)
    noted x =
        let here : has t (some (add side (or_default (lookup hash tab))))
            ≡ contains t (add side (or_default (lookup hash tab))) =
          has-some t _ in
        here
        ∙ contains-add t side (or_default (lookup hash tab))
        ∙ ap (λ (b : Bool). if bytes_Eq.beq side t then true else b)
            (subst (λ (y : Bytes). has t (lookup hash tab) ≡ has t (lookup y tab))
                ((bytes_Eq.beq_iff hash h).0 x) refl
              ∙ sym (has_publisher-has h t tab))

put_back-has :
    (hash h t : Bytes) (set : List Bytes) (tab : PublisherTable)
    → has t (lookup h (put_back hash set tab).1)
      ≡ (if bytes_Eq.beq hash h then contains t set else has t (lookup h tab))
unfolding put_back
put_back-has hash h t [] tab =
    rw (lookup-remove hash h tab) (elim (Bool-cases (bytes_Eq.beq hash h)) [
      | inl x ↦ rw x (unfold or_default contains in refl)
      | inr x ↦ rw x refl
    ])
put_back-has hash h t (u ∷ us) tab =
    rw (lookup-insert hash h (u ∷ us) tab) (elim (Bool-cases (bytes_Eq.beq hash h)) [
      | inl x ↦ rw x (has-some t (u ∷ us))
      | inr x ↦ rw x refl
    ])

drop-has :
    (hash side h t : Bytes) (tab : PublisherTable)
    → has t (lookup h (drop_publisher hash side tab).1)
      ≡ (if bytes_Eq.beq hash h && bytes_Eq.beq side t then false else has t (lookup h tab))
unfolding drop_publisher
drop-has hash side h t tab = go (lookup hash tab) refl
  where
    at_hash :
        (o : Option (List Bytes))
        → lookup hash tab ≡ o
        → bytes_Eq.beq hash h ≡ true
        → lookup h tab ≡ o
    at_hash o e x = subst (λ (y : Bytes). lookup y tab ≡ o) ((bytes_Eq.beq_iff hash h).0 x) e

    go :
        (o : Option (List Bytes))
        → lookup hash tab ≡ o
        → (let r : Bool × PublisherTable = elim o [
          | none ↦ (false, tab)
          | some set ↦ put_back hash (discard side set) tab
        ] in
            has t (lookup h r.1)
            ≡ (if bytes_Eq.beq hash h && bytes_Eq.beq side t then false else has t (lookup h tab)))
    go none e = elim (Bool-cases (bytes_Eq.beq hash h)) [
      | inl x ↦ rw (x, at_hash none e x) (ground (arith, has-none t))
      | inr x ↦ rw x refl
    ]
    go (some set) e =
        put_back-has hash h t (discard side set) tab ∙ elim (Bool-cases (bytes_Eq.beq hash h)) [
          | inl x ↦
              rw (x, at_hash (some set) e x)
                (contains-discard t side set
                  ∙ ap (λ (b : Bool). if bytes_Eq.beq side t then false else b)
                      (sym (has-some t set)))
          | inr x ↦ rw x refl
        ]

-- What a set that is not empty contains.
put_back-answer :
    (hash : Bytes) (set : List Bytes) (tab : PublisherTable)
    → ((put_back hash set tab).0 ≡ true) ↔ ((u : Bytes) × (contains u set ≡ true))
unfolding put_back contains
put_back-answer hash [] tab = (λ e. cc, λ (u, e). cc)
put_back-answer hash (u ∷ us) tab = (λ e. (u, rw (beq_self u) refl), λ p. refl)

drop-answer :
    (hash side : Bytes) (tab : PublisherTable)
    → ((drop_publisher hash side tab).0 ≡ true)
      ↔ ((u : Bytes) × (has u (lookup hash (drop_publisher hash side tab).1) ≡ true))
unfolding drop_publisher
drop-answer hash side tab = go (lookup hash tab) refl
  where
    at_hash :
        (u : Bytes) (set : List Bytes)
        → has u (lookup hash (put_back hash set tab).1) ≡ contains u set
    at_hash u set = put_back-has hash hash u set tab ∙ rw (beq_self hash) refl

    go :
        (o : Option (List Bytes))
        → lookup hash tab ≡ o
        → (let r : Bool × PublisherTable = elim o [
          | none ↦ (false, tab)
          | some set ↦ put_back hash (discard side set) tab
        ] in
            (r.0 ≡ true) ↔ ((u : Bytes) × (has u (lookup hash r.1) ≡ true)))
    go none e = (λ p. cc, λ (u, h). let missing : has u none ≡ true = rw e at h in cc (has-none u))
    go (some set) e =
        let both = put_back-answer hash (discard side set) tab in
        (
          λ p. let (u, h) = both.0 p in (u, at_hash u (discard side set) ∙ h),
          λ (u, h). both.1 (u, sym (at_hash u (discard side set)) ∙ h),
        )

-- After a side is dropped as a publisher of an object it is none, and every other pair is as
-- before; the answer is whether some side is still a publisher of the object, also where the
-- dropped side was none before.
pub drop_publisher_lem :
    (hash side : Bytes) (tab : PublisherTable)
    → ((h t : Bytes)
        → has_publisher h t (drop_publisher hash side tab).1
          ≡ (if bytes_Eq.beq hash h && bytes_Eq.beq side t then false else has_publisher h t tab))
      × (((drop_publisher hash side tab).0 ≡ true)
          ↔ ((u : Bytes) × (has_publisher hash u (drop_publisher hash side tab).1 ≡ true)))
drop_publisher_lem hash side tab = (dropped, answer)
  where
    dropped :
        (h t : Bytes)
        → has_publisher h t (drop_publisher hash side tab).1
          ≡ (if bytes_Eq.beq hash h && bytes_Eq.beq side t then false else has_publisher h t tab)
    dropped h t =
        has_publisher-has h t _
        ∙ drop-has hash side h t tab
        ∙ ap (λ (b : Bool). if bytes_Eq.beq hash h && bytes_Eq.beq side t then false else b)
            (sym (has_publisher-has h t tab))

    answer :
        ((drop_publisher hash side tab).0 ≡ true)
        ↔ ((u : Bytes) × (has_publisher hash u (drop_publisher hash side tab).1 ≡ true))
    answer = (
      λ e. let (u, h) = (drop-answer hash side tab).0 e in (u, has_publisher-has hash u _ ∙ h),
      λ (u, h). (drop-answer hash side tab).1 (u, sym (has_publisher-has hash u _) ∙ h),
    )
