-- ===== src/Server/Control/Listing.antt =====
-- The statistics command and the playing list.
use wifi_audio.Common.{
  ℕ, suc, ◌+◌, ◌≡◌, refl, ap, ◌∙◌, List, [], ◌∷◌, ◌++◌, map, Option, some, ℤ, arith, length,
  get_elem?,
}
use wifi_audio.Rtp.Engine.Stats.{get_num_clients_lem, get_client_lem}
use wifi_audio.Rtp.Engine.{RtpEngine, get_client}
use wifi_audio.Rtp.Links.{Links}
use wifi_audio.Server.Control.{Line, client_lines, i2s_lines, cmd_rtp}

module _ {k : Links} (e : RtpEngine k) where
  abbrev pub client_line : ℕ → Line
  client_line c = Line.client_stats c (e.clients c)

  client_lines-map :
      (xs : List ℕ) (idx : ℕ)
      → ((i : ℕ) → get_client e (idx + i) ≡ get_elem? xs i)
      → client_lines (length xs) idx e ≡ map client_line xs
  unfolding client_lines
  client_lines-map [] idx h = refl
  client_lines-map (x ∷ xs) idx h =
      let here : get_client e idx ≡ some x =
        ap (get_client e) (let z : idx ≡ idx + 0 = omega arith in z) ∙ h 0 in
      rw (here, client_lines)
        (ap (λ ls. client_line x ∷ ls)
          (client_lines-map xs (suc idx) (λ i.
            ap (get_client e) (let z : suc idx + i ≡ idx + suc i = omega arith in z) ∙ h (suc i))))

  -- The statistics command shows the number of the clients that play, then each of them once for each
  -- time it stands in the playing list, in its order and with its counters, and then the I2S counters
  -- if there are any.
  pub cmd_rtp_lem :
      (i2s : Option (ℤ × ℤ))
      → cmd_rtp e i2s
        ≡ Line.client_count (length (k.items e.playing)) ∷ map client_line (k.items e.playing)
          ++ i2s_lines i2s
  unfolding cmd_rtp
  cmd_rtp_lem i2s =
      let items = k.items e.playing in
      let zero_plus : (i : ℕ) → get_client e (0 + i) ≡ get_elem? items i =
        λ i. ap (get_client e) (let z : 0 + i ≡ i = omega arith in z) ∙ get_client_lem e i in
      ap (λ n. Line.client_count n ∷ client_lines n 0 e ++ i2s_lines i2s) (get_num_clients_lem e)
      ∙ ap (λ ls. Line.client_count (length items) ∷ ls ++ i2s_lines i2s)
          (client_lines-map items 0 zero_plus)
