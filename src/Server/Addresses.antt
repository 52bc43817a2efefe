-- ===== src/Server/Addresses.antt =====
-- The virtual addresses of src/server.rs: distinct while the counter stays below 256, and what
-- happens past that.
use easynet.Prelude.{
  ℕ, ◌≤◌, ◌<◌, ◌≡◌, ◌≢◌, ◌∙◌, sym, some, List, [], ◌∷◌, arith, subst, some_inj, All, All-imp,
  Bool-cases, inl, inr,
}
use easynet.Text.{Text, text_eq, text_eq_iff}
use easynet.Assoc.{get, insert, remove}
use easynet.Net.{Ipv4Addr}
use easynet.Server.{Client, ServerState, text_key, client_address}

abbrev pub Sessions : Type 0
Sessions = List (Text × Client)

-- An entry with another id and another address.
abbrev pub Apart : Text → Ipv4Addr → Text × Client → Type 0
Apart j ip (id, client) = (id ≢ j) × (client.virtual_ip ≢ ip)

-- No two entries have one id or one virtual address.
abbrev pub DistinctAddresses : Sessions → Type 0
DistinctAddresses [] = Unit
DistinctAddresses ((id, client) ∷ m) = All (Apart id client.virtual_ip) m × DistinctAddresses m

module _ (P : Text × Client → Type 0) where
  pub insert-All :
      (k : Text) (v : Client) (m : Sessions) → All P m → P (k, v) → All P (insert k v m)
  unfolding insert
  insert-All k v [] h p = (p, tt)
  insert-All k v ((j, w) ∷ m) h p = elim (Bool-cases (text_eq j k)) [
    | inl same ↦ rw (same, insert) (p, h.1)
    | inr other ↦ rw (other, insert) (h.0, insert-All k v m h.1 p)
  ]

  pub remove-All : (k : Text) (m : Sessions) → All P m → All P (remove k m)
  unfolding remove
  remove-All k [] h = tt
  remove-All k ((j, w) ∷ m) h = elim (Bool-cases (text_eq j k)) [
    | inl same ↦ rw (same, remove) (remove-All k m h.1)
    | inr other ↦ rw (other, remove) (h.0, remove-All k m h.1)
  ]

pub remove-DistinctAddresses :
    (k : Text) (m : Sessions) → DistinctAddresses m → DistinctAddresses (remove k m)
unfolding remove
remove-DistinctAddresses k [] h = tt
remove-DistinctAddresses k ((j, w) ∷ m) h = elim (Bool-cases (text_eq j k)) [
  | inl same ↦ rw (same, remove) (remove-DistinctAddresses k m h.1)
  | inr other ↦
      rw (other, remove)
        (remove-All (Apart j w.virtual_ip) k m h.0, remove-DistinctAddresses k m h.1)
]

-- The new address may stand under the key alone.
abbrev pub DiffersBut : Text → Ipv4Addr → Text × Client → Type 0
DiffersBut k ip (id, client) = (id ≢ k) → client.virtual_ip ≢ ip

pub insert-DistinctAddresses :
    (k : Text) (v : Client) (m : Sessions)
    → DistinctAddresses m
    → All (DiffersBut k v.virtual_ip) m
    → DistinctAddresses (insert k v m)
unfolding insert
insert-DistinctAddresses k v [] h d = (tt, tt)
insert-DistinctAddresses k v ((j, w) ∷ m) h d = elim (Bool-cases (text_eq j k)) [
  | inl same ↦ rw (same, insert) (overwritten ((text_eq_iff j k).0 same), h.1)
  | inr other ↦
      let keys : k ≢ j = λ e. cc ((text_eq_iff j k).1 (sym e)) in
      let ips : w.virtual_ip ≢ v.virtual_ip = d.0 (λ e. keys (sym e)) in
      rw (other, insert)
        (
          insert-All (Apart j w.virtual_ip) k v m h.0 (keys, λ e. ips (sym e)),
          insert-DistinctAddresses k v m h.1 d.1,
        )
]
  where
    overwritten : j ≡ k → All (Apart k v.virtual_ip) m
    overwritten e = both m (subst (λ i. All (Apart i w.virtual_ip) m) e h.0) d.1
      where
        both :
            (l : Sessions)
            → All (Apart k w.virtual_ip) l
            → All (DiffersBut k v.virtual_ip) l
            → All (Apart k v.virtual_ip) l
        both [] p q = tt
        both (e ∷ l) p q = ((p.0.0, q.0 p.0.0), both l p.1 q.1)

-- What holds of every stored client holds of the one found.
pub All-get :
    (P : Client → Type 0) (k : Text) (c : Client) (m : Sessions)
    → All (λ (e : Text × Client). P e.1) m
    → get k m ≡ some c
    → P c
unfolding get
All-get P k c [] h e = cc
All-get P k c ((j, w) ∷ m) h e = elim (Bool-cases (text_eq j k)) [
  | inl same ↦ subst P (some_inj (rw same at e)) h.0
  | inr other ↦ All-get P k c m h.1 (rw other at e)
]

-- What is found under a key is an entry.
pub All-found :
    (P : Text × Client → Type 0) (k : Text) (c : Client) (m : Sessions)
    → All P m
    → get k m ≡ some c
    → P (k, c)
unfolding get
All-found P k c [] h e = cc
All-found P k c ((j, w) ∷ m) h e = elim (Bool-cases (text_eq j k)) [
  | inl same ↦
      subst (λ i. P (i, c)) ((text_eq_iff j k).0 same)
        (subst (λ x. P (j, x)) (some_inj (rw same at e)) h.0)
  | inr other ↦ All-found P k c m h.1 (rw other at e)
]

-- The address that is stored under a key differs from those under the other keys.
pub get-DiffersBut :
    (k : Text) (c : Client) (m : Sessions)
    → DistinctAddresses m
    → get k m ≡ some c
    → All (DiffersBut k c.virtual_ip) m
unfolding get
get-DiffersBut k c [] h e = tt
get-DiffersBut k c ((j, w) ∷ m) h e = elim (Bool-cases (text_eq j k)) [
  | inl same ↦
      let first : w ≡ c = some_inj (rw same at e) in
      (
        λ ne. absurd (ne ((text_eq_iff j k).0 same)),
        All-imp m (λ f a _. subst (λ (x : Client). (f.1).virtual_ip ≢ x.virtual_ip) first a.1) h.0,
      )
  | inr other ↦
      let later : get k m ≡ some c = rw other at e in
      (
        λ _ same.
            All-get (λ (x : Client). x.virtual_ip ≢ w.virtual_ip) k c m (All-imp m (λ f a. a.1) h.0)
              later (sym same),
        get-DiffersBut k c m h.1 later,
      )
]

-- The addresses that the counter has given out: 10.0.0.2 up to the one before the next.
abbrev pub GivenOut : ℕ → Text × Client → Type 0
GivenOut next (id, client) = (i : ℕ) × (2 ≤ i) × (i < next) × (client.virtual_ip ≡ client_address i)

-- The counter has not passed 256, every stored address was given out, and no two entries share an id
-- or an address.
pub record IsSound (s : ServerState) : Type 0 where
  pub low : 2 ≤ s.next_client_id
  pub high : s.next_client_id ≤ 256
  pub given : All (GivenOut s.next_client_id) s.sessions
  pub distinct : DistinctAddresses s.sessions

pub given_later : (n m : ℕ) (l : Sessions) → n ≤ m → All (GivenOut n) l → All (GivenOut m) l
given_later n m l h g = All-imp l (λ e (i, two, below, same). (i, two, omega arith, same)) g

pub address_inj : (i j : ℕ) → i < 256 → j < 256 → client_address i ≡ client_address j → i ≡ j
address_inj i j hi hj e = ground arith

-- An address not given out yet differs from every stored one.
pub next_differs :
    (n : ℕ) (k : Text) (l : Sessions)
    → n < 256
    → All (GivenOut n) l
    → All (DiffersBut k (client_address n)) l
next_differs n k l h g =
    All-imp l
      (λ e (i, two, below, same) _ eq.
        let clash : i ≡ n = address_inj i n (omega arith) h (sym same ∙ eq) in omega arith)
      g
