-- ===== src/SocketOwner/Linked.antt =====
-- The maps of src/socketowner.cpp hold, for each socket, just the owners that have it.
use mathlib.Core.Bool.{false≢true}
use sipp.Base.{
  ℕ, ◌≤◌, ◌<◌, ◌≡◌, ◌≢◌, refl, sym, ap, subst, ◌∙◌, inl, inr, Bool, true, false, not, ◌&&◌, ◌||◌,
  List, [], ◌∷◌, Option, none, some, ltb, ◌==◌, ==_refl, ==_iff, arith, Bool-cases, Option-cases,
  if◌then◌else◌, has, erase,
}
use sipp.Base.Update.{update}
use sipp.SocketOwner.{
  Owners, no_owners, insert_owner, new_owner, owner_map, add_owner_to_socket, associate_socket,
  map_or_none, remove_owner_from_socket, dissociate_socket, delete_owner, get_owners_for_socket,
}

-- In the order of the owners' numbers, each once.
abbrev pub Ascending : List ℕ → Type 0
Ascending [] = Unit
Ascending (x ∷ xs) = ((u : ℕ) → has u xs ≡ true → x < u) × Ascending xs

-- Whether an owner has a socket.
abbrev pub owns : Option ℕ → ℕ → Bool
owns none socket = false
owns (some k) socket = k == socket

-- The maps and the owners agree, a map is in order and has an owner, and an owner with a socket has a
-- number that was given out.
pub record Linked (o : Owners) : Type 0 where
  pub agrees :
      (socket id : ℕ) → has id (get_owners_for_socket socket o) ≡ owns (o.call_socket id) socket
  pub ascending : (socket : ℕ) → Ascending (get_owners_for_socket socket o)
  pub inhabited : (socket : ℕ) → o.socket_to_owners socket ≢ some []
  pub given : (id : ℕ) → o.nextownerid ≤ id → o.call_socket id ≡ none

has-insert_owner : (id u : ℕ) (xs : List ℕ) → has u (insert_owner id xs) ≡ ((id == u) || has u xs)
unfolding insert_owner
has-insert_owner id u [] = refl
has-insert_owner id u (x ∷ xs) = ground (arith, has-insert_owner id u xs)

insert_owner-inhabited : (id : ℕ) (xs : List ℕ) → insert_owner id xs ≢ []
insert_owner-inhabited id xs e =
    false≢true (sym (ap (has id) e) ∙ ground (arith, has-insert_owner id id xs, ==_refl id))

insert_owner-Ascending : (id : ℕ) (xs : List ℕ) → Ascending xs → Ascending (insert_owner id xs)
unfolding insert_owner
insert_owner-Ascending id [] h = ((λ u k. ground arith), tt)
insert_owner-Ascending id (x ∷ xs) h = elim (Bool-cases (id == x)) [
  | inl y ↦ rw y h
  | inr z ↦ elim (Bool-cases (ltb id x)) [
    | inl y ↦
        rw (z, y)
          (
            (λ u k. elim (Bool-cases (x == u)) [
              | inl e ↦ (let q = (==_iff x u).0 e in ground (arith, y, q))
              | inr e ↦ (let q = h.0 u (ground (arith, k, e)) in ground (arith, y, q))
            ]),
            h,
          )
    | inr w ↦
        rw (z, w)
          (
            (λ u k. elim (Bool-cases (id == u)) [
              | inl e ↦ (let q = (==_iff id u).0 e in ground (arith, z, w, q))
              | inr e ↦ h.0 u (ground (arith, k, e, has-insert_owner id u xs))
            ]),
            insert_owner-Ascending id xs h.1,
          )
  ]
]

has-erase-Ascending :
    (id u : ℕ) (xs : List ℕ) → Ascending xs → has u (erase id xs) ≡ (has u xs && not (id == u))
has-erase-Ascending id u [] h = refl
has-erase-Ascending id u (x ∷ xs) h = ground (arith, has-erase-Ascending id u xs h.1, h.0 id, h.0 u)

erase-Ascending : (id : ℕ) (xs : List ℕ) → Ascending xs → Ascending (erase id xs)
erase-Ascending id [] h = tt
erase-Ascending id (x ∷ xs) h = elim (Bool-cases (x == id)) [
  | inl y ↦ rw y h.1
  | inr z ↦ rw z (
    (λ u k. h.0 u (ground (arith, k, has-erase-Ascending id u xs h.1))),
    erase-Ascending id xs h.1,
  )
]

owns_iff : (c : Option ℕ) (socket : ℕ) → owns c socket ≡ true → c ≡ some socket
owns_iff none socket h = ground arith
owns_iff (some k) socket h = ap some ((==_iff k socket).0 h)

owner_map-map_or_none : (l : List ℕ) → owner_map (map_or_none l) ≡ l
owner_map-map_or_none [] = refl
owner_map-map_or_none (x ∷ xs) = refl

map_or_none-inhabited : (l : List ℕ) → map_or_none l ≢ some []
map_or_none-inhabited [] h = ground arith
map_or_none-inhabited (x ∷ xs) h = ground arith

-- The state after one socket's map and one owner's socket have changed.
abbrev changed : ℕ → Option ℕ → ℕ → Option (List ℕ) → Owners → Owners
changed id c socket m o = record o {
  call_socket = update o.call_socket id c;
  socket_to_owners = update o.socket_to_owners socket m;
}

changed-Linked :
    (id socket : ℕ) (c : Option ℕ) (m : Option (List ℕ)) (o : Owners)
    → Linked o
    → id < o.nextownerid
    → Ascending (owner_map m)
    → m ≢ some []
    → ((u : ℕ)
        → has u (owner_map m)
          ≡ (if id == u then owns c socket else has u (get_owners_for_socket socket o)))
    → ((k : ℕ) → (k == socket) ≡ false → owns c k ≡ owns (o.call_socket id) k)
    → Linked (changed id c socket m o)
unfolding get_owners_for_socket
changed-Linked id socket c m o v small asc some_m members others = record {
  agrees = λ k u. elim (Bool-cases (k == socket)) [
    | inl y ↦ rw y (here k u y)
    | inr z ↦ rw z (there k u z)
  ];
  ascending =
      λ k. elim (Bool-cases (k == socket)) [ inl y ↦ rw y asc | inr z ↦ rw z (v.ascending k) ];
  inhabited =
      λ k. elim (Bool-cases (k == socket)) [ inl y ↦ rw y some_m | inr z ↦ rw z (v.inhabited k) ];
  given = λ u h. ground (arith, v.given u h, small);
}
  where
    here :
        (k u : ℕ)
        → (k == socket) ≡ true
        → has u (owner_map m) ≡ owns (update o.call_socket id c u) k
    here k u y =
        let e = (==_iff k socket).0 y in
        elim (Bool-cases (id == u)) [
          | inl i ↦ rw ((==_iff id u).0 i, ==_refl u, e) (ground (arith, members u, i))
          | inr n ↦ ground (arith, members u, n, v.agrees k u, e)
        ]

    there :
        (k u : ℕ)
        → (k == socket) ≡ false
        → has u (owner_map (o.socket_to_owners k)) ≡ owns (update o.call_socket id c u) k
    there k u z = elim (Bool-cases (id == u)) [
      | inl i ↦
          rw ((==_iff id u).0 i, ==_refl u)
            (v.agrees k u
              ∙ ap (λ j. owns (o.call_socket j) k) (sym ((==_iff id u).0 i))
              ∙ sym (others k z))
      | inr n ↦ ground (arith, n, v.agrees k u)
    ]

-- An owner that was given out and has no socket gets one.
pub associate_socket-Linked :
    (id socket : ℕ) (o : Owners)
    → Linked o
    → id < o.nextownerid
    → o.call_socket id ≡ none
    → Linked (associate_socket id (some socket) o)
unfolding associate_socket add_owner_to_socket get_owners_for_socket
associate_socket-Linked id socket o v small free =
    changed-Linked id socket (some socket)
      (some (insert_owner id (owner_map (o.socket_to_owners socket)))) o v small
      (insert_owner-Ascending id (get_owners_for_socket socket o) (v.ascending socket))
      (λ e. absurd (insert_owner-inhabited id (get_owners_for_socket socket o) (ap owner_map e)))
      (λ u. ground (arith, has-insert_owner id u (get_owners_for_socket socket o), ==_refl socket))
      (λ k z. ground (arith, free, z))

-- An owner with a socket gives it up: no assertion fails, and it has none then.
pub dissociate_socket-Linked :
    (id socket : ℕ) (o : Owners)
    → Linked o
    → o.call_socket id ≡ some socket
    → (o' : Owners) × (dissociate_socket id o ≡ some (o', some socket))
      × Linked o'
      × (o'.call_socket id ≡ none)
unfolding dissociate_socket remove_owner_from_socket get_owners_for_socket
dissociate_socket-Linked id socket o v e =
    let owned = v.agrees socket id in
    elim (Option-cases (o.socket_to_owners socket)) [
      | inl n ↦ ground (arith, n, owned, e, ==_refl socket)
      | inr (l, q) ↦
          let here : has id l ≡ true = ground (arith, q, owned, e, ==_refl socket) in
          let order : Ascending l = subst Ascending (ap owner_map q) (v.ascending socket) in
          (
            changed id none socket (map_or_none (erase id l)) o,
            rw (e, q, here, dissociate_socket, remove_owner_from_socket)
                (ap (λ k. some (changed id none socket (map_or_none (erase id l)) o, k)) e),
            changed-Linked id socket none (map_or_none (erase id l)) o v
                (ground (arith, e, v.given id))
                (subst Ascending (sym (owner_map-map_or_none (erase id l)))
                  (erase-Ascending id l order))
                (map_or_none-inhabited (erase id l))
                (λ u.
                  ground (
                    arith,
                    owner_map-map_or_none (erase id l),
                    has-erase-Ascending id u l order,
                    q,
                  ))
                (λ k z. ground (arith, e, (==_iff socket k).0, ==_refl k, z)),
            rw (==_refl id) refl,
          )
    ]

pub delete_owner-Linked :
    (id : ℕ) (o : Owners)
    → Linked o
    → (o' : Owners) × (delete_owner id o ≡ some (o', o.call_socket id))
      × Linked o'
      × (o'.call_socket id ≡ none)
unfolding delete_owner
delete_owner-Linked id o v = elim (Option-cases (o.call_socket id)) [
  | inl n ↦ (o, rw (n, delete_owner) refl, v, n)
  | inr (socket, e) ↦
      let (o', q, w, z) = dissociate_socket-Linked id socket o v e in
      (o', rw (e, delete_owner) q, w, z)
]

pub no_owners-Linked : Linked no_owners
unfolding no_owners get_owners_for_socket
no_owners-Linked = record {
  agrees = λ socket id. refl;
  ascending = λ socket. tt;
  inhabited = λ socket e. ground arith;
  given = λ id h. refl;
}

pub new_owner-Linked : (o : Owners) → Linked o → Linked (new_owner o).0
unfolding new_owner get_owners_for_socket
new_owner-Linked o v = record {
  agrees = λ socket id. ground (arith, v.agrees socket id, v.given id);
  ascending = v.ascending;
  inhabited = v.inhabited;
  given = λ id h. ground (arith, v.given id, h);
}
