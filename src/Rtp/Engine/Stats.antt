-- ===== src/Rtp/Engine/Stats.antt =====
-- The statistics interface of src/rtp.cpp and the playing list.
use native.Mathlib.Decide.{dec_lt}
use wifi_audio.Common.{
  ℕ, zero, suc, ◌+◌, ◌≤◌, ◌<◌, ◌≡◌, refl, ap, ◌∙◌, ◌⊎◌, inl, inr, List, [], ◌∷◌, none, some, arith,
  length, get_elem?,
}
use wifi_audio.Rtp.Links.{Links, visit_list}
use wifi_audio.Rtp.Engine.{RtpEngine, Counter, find_client, get_num_clients, get_client}

counted : (xs : List ℕ) (c : Counter) → (visit_list (find_client none) xs c).idx ≡ c.idx + length xs
unfolding find_client
counted [] c = omega arith
counted (x ∷ xs) c = omega (arith, counted xs (record c { idx = c.idx + 1 }))

found :
    (xs : List ℕ) (n i : ℕ) (c : Counter)
    → c.idx + n ≡ i
    → c.client ≡ none
    → (visit_list (find_client (some i)) xs c).client ≡ get_elem? xs n
unfolding find_client
found [] n i c e h = h
found (x ∷ xs) zero i c e h = ground arith
found (x ∷ xs) (suc n) i c e h =
    ground (arith, found xs n i (record c { idx = c.idx + 1 }) (omega arith) h)

get_elem?-lt : (xs : List ℕ) (i : ℕ) → i < length xs → (x : ℕ) × (get_elem? xs i ≡ some x)
get_elem?-lt [] i h = elim h [ ]
get_elem?-lt (x ∷ xs) zero h = (x, refl)
get_elem?-lt (x ∷ xs) (suc i) h = get_elem?-lt xs i (omega arith)

get_elem?-ge : (xs : List ℕ) (i : ℕ) → length xs ≤ i → get_elem? xs i ≡ none
get_elem?-ge [] i h = refl
get_elem?-ge (x ∷ xs) zero h = absurd (omega arith)
get_elem?-ge (x ∷ xs) (suc i) h = get_elem?-ge xs i (omega arith)

module _ {k : Links} (e : RtpEngine k) where
  pub get_num_clients_lem : get_num_clients e ≡ length (k.items e.playing)
  unfolding get_num_clients
  get_num_clients_lem =
      ap (λ c. c.idx) (k.visit_items Counter (find_client none) e.playing _)
      ∙ counted (k.items e.playing) _
      ∙ omega arith

  pub get_client_lem : (i : ℕ) → get_client e i ≡ get_elem? (k.items e.playing) i
  unfolding get_client
  get_client_lem i =
      ap (λ c. c.client) (k.visit_items Counter (find_client (some i)) e.playing _)
      ∙ found (k.items e.playing) i i _ (omega arith) refl

  -- The loop of the command line over the statistics meets every playing client: at each index below
  -- the number of clients there is one, the one at that place of the playing list, and at no other
  -- index.
  pub get_client-get_num_clients :
      (i : ℕ)
      → (get_client e i ≡ get_elem? (k.items e.playing) i)
        × (((i < get_num_clients e) × ((x : ℕ) × (get_client e i ≡ some x)))
            ⊎ ((get_num_clients e ≤ i) × (get_client e i ≡ none)))
  get_client-get_num_clients i = (
    get_client_lem i,
    elim (dec_lt i (get_num_clients e)) [
      | yes h ↦
          let (x, f) = get_elem?-lt (k.items e.playing) i (omega (arith, get_num_clients_lem)) in
          inl (h, (x, get_client_lem i ∙ f))
      | no h ↦ inr (
        omega arith,
        get_client_lem i ∙ get_elem?-ge (k.items e.playing) i (omega (arith, get_num_clients_lem)),
      )
    ],
  )
