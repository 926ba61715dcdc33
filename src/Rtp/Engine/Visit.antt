-- ===== src/Rtp/Engine/Visit.antt =====
-- What one visit of the playing clients does, whatever their order.
use mathlib.Core.List.{reverse, reverse-cons, append_assoc}
use wifi_audio.Common.{
  ℕ, ◌+◌, ◌%◌, ◌^◌, ◌≤◌, ◌≡◌, refl, sym, ap, ◌∙◌, true, false, List, [], ◌∷◌, ◌++◌, map, arith,
  Bytes, count, ◌==◌, if◌then◌else◌, signed32, eq_ℤ,
}
use wifi_audio.Rtp.Links.{visit_list}
use wifi_audio.Rtp.Engine.{SocketSend, Wire, send_packet}

module _ (socket_send : SocketSend) (out : Bytes) (size : ℕ) where
  -- The state after every client of a list was sent the packet.
  abbrev pub visited : List ℕ → Wire → Wire
  visited = visit_list (send_packet socket_send out size)

  send_packet-num_packets :
      (x i : ℕ) (w : Wire)
      → ((send_packet socket_send out size x w).1.clients i).num_packets
        ≡ (w.clients i).num_packets + (if i == x then 1 else 0)
  unfolding send_packet
  send_packet-num_packets x i w = ground arith

  send_packet-num_errors :
      (x i : ℕ) (w : Wire)
      → ((send_packet socket_send out size x w).1.clients i).num_errors
        ≤ (w.clients i).num_errors + (if i == x then 1 else 0)
  unfolding send_packet
  send_packet-num_errors x i w = ground arith

  send_packet-sent :
      (x : ℕ) (w : Wire) → (send_packet socket_send out size x w).1.sent ≡ (x, out) ∷ w.sent
  unfolding send_packet
  send_packet-sent x w = ground arith

  send_packet-go_on : (x : ℕ) (w : Wire) → (send_packet socket_send out size x w).0 ≡ false
  unfolding send_packet
  send_packet-go_on x w = refl

  visited-cons :
      (x : ℕ) (xs : List ℕ) (w : Wire)
      → visited (x ∷ xs) w ≡ visited xs (send_packet socket_send out size x w).1
  visited-cons x xs w = rw (send_packet-go_on x w)

  -- Each client is sent the packet once for each time it stands in the list.
  pub visited-num_packets :
      (xs : List ℕ) (i : ℕ) (w : Wire)
      → ((visited xs w).clients i).num_packets ≡ (w.clients i).num_packets + count i xs
  visited-num_packets [] i w = omega arith
  visited-num_packets (x ∷ xs) i w = rw (visited-cons x xs w) (
      omega (
        arith,
        visited-num_packets xs i (send_packet socket_send out size x w).1,
        send_packet-num_packets x i w,
      ))

  pub visited-num_errors :
      (xs : List ℕ) (i : ℕ) (w : Wire)
      → ((visited xs w).clients i).num_errors ≤ (w.clients i).num_errors + count i xs
  visited-num_errors [] i w = omega arith
  visited-num_errors (x ∷ xs) i w = rw (visited-cons x xs w) (
      omega (
        arith,
        visited-num_errors xs i (send_packet socket_send out size x w).1,
        send_packet-num_errors x i w,
      ))

  pub visited-sent :
      (xs : List ℕ) (w : Wire) → (visited xs w).sent ≡ reverse (map (λ x. (x, out)) xs) ++ w.sent
  visited-sent [] w = refl
  visited-sent (x ∷ xs) w =
      rw (visited-cons x xs w, visited-sent xs _, send_packet-sent x w)
        (sym (
          ap (λ l. l ++ w.sent) (reverse-cons (x, out) (map (λ x. (x, out)) xs))
          ∙ append_assoc _ ((x, out) ∷ []) w.sent))

  -- A client whose socket always takes the whole packet has no error counted.
  pub visited-accepted :
      (xs : List ℕ) (i : ℕ) (w : Wire)
      → ((s : List (ℕ × Bytes)) → eq_ℤ (socket_send s i out) (signed32 (size % 2 ^ 32)) ≡ true)
      → ((visited xs w).clients i).num_errors ≡ (w.clients i).num_errors
  visited-accepted [] i w h = refl
  visited-accepted (x ∷ xs) i w h = rw (visited-cons x xs w) (visited-accepted xs i _ h ∙ one)
    where
      one :
          ((send_packet socket_send out size x w).1.clients i).num_errors ≡ (w.clients i).num_errors
      one = unfold send_packet in ground (arith, h w.sent)
