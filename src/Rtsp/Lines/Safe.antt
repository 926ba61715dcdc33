-- ===== src/Rtsp/Lines/Safe.antt =====
-- `LineParser` on what `RtspClient::run` hands to it: bytes that end with an empty line.
use wifi_audio.Common.{
  ℕ, zero, suc, ◌≡◌, refl, ap, Bool, ◌<◌, ◌∙◌, ◌⊎◌, inl, inr, true, false, ◌&&◌, [], ◌∷◌, ◌++◌,
  Option, none, some, Bytes, arith, Bool-cases, ltb, ◌==◌, length, Outcome, ret,
}
use wifi_audio.Libc.Strings.{c_str, starts_with}
use wifi_audio.Rtsp.Lines.{crlf, Split, put_front, scan, getline, skip_crlfs, line_parser}

abbrev pub block_end : Bytes
block_end = b'\r' ∷ b'\n' ∷ b'\r' ∷ b'\n' ∷ []

-- What is left of a request: its last two bytes, or bytes that end with an empty line.
abbrev pub IsBlock : Bytes → Type 0
IsBlock b = (b ≡ crlf) ⊎ ((t : Bytes) × (b ≡ t ++ block_end))

abbrev Found : Option Split → Type 0
Found o = (s : Split) × (o ≡ some s) × IsBlock s.rest

put_front-Found : (c : ℕ) (o : Option Split) → Found o → Found (put_front c o)
put_front-Found c o (s, e, b) = (record s { line = c ∷ s.line }, ap (put_front c) e, b)

scan_next :
    (c d e : ℕ) (more : Bytes)
    → IsBlock (e ∷ more)
    → Found (scan (d ∷ e ∷ more))
    → Found (scan (c ∷ d ∷ e ∷ more))
unfolding scan
scan_next c d e more b f = elim (Bool-cases (c == b'\r' && d == b'\n')) [
  | inl p ↦ rw (p, scan) (record { line = []; rest = e ∷ more }, refl, b)
  | inr p ↦ rw (p, scan) (put_front-Found c (scan (d ∷ e ∷ more)) f)
]

scan-Found : (t : Bytes) → Found (scan (t ++ block_end))
unfolding scan
scan-Found [] = (record { line = []; rest = crlf }, refl, inl refl)
scan-Found (c ∷ []) = rw (no_crlf c, scan) (put_front-Found c (scan block_end) (scan-Found []))
  where
    no_crlf : (c : ℕ) → (c == b'\r' && b'\r' == b'\n') ≡ false
    no_crlf c = ground arith
scan-Found (c ∷ d ∷ []) =
    scan_next c d b'\r' (b'\n' ∷ b'\r' ∷ b'\n' ∷ []) (inr ([], refl)) (scan-Found (d ∷ []))
scan-Found (c ∷ d ∷ e ∷ t) =
    scan_next c d e (t ++ block_end) (inr (e ∷ t, refl)) (scan-Found (d ∷ e ∷ t))

-- On what is left of a request, getline reads within the buffer, and leaves what is again such a rest.
pub getline-IsBlock :
    (b : Bytes) → IsBlock b → (r : Option Bytes × Bytes) × (getline b ≡ ret r) × IsBlock r.1
unfolding getline scan
getline-IsBlock b (inl e) = ((none, crlf), ap getline e, inl refl)
getline-IsBlock b (inr (t, e)) = let (r, f, q) = of_block t in (r, ap getline e ∙ f, q)
  where
    of_found :
        (c d : ℕ) (more : Bytes)
        → Found (scan (c ∷ d ∷ more))
        → (r : Option Bytes × Bytes) × (getline (c ∷ d ∷ more) ≡ ret r) × IsBlock r.1
    of_found c d more (s, e, q) = ((some (c_str s.line), s.rest), rw (e, getline) refl, q)

    of_block :
        (t : Bytes) → (r : Option Bytes × Bytes) × (getline (t ++ block_end) ≡ ret r) × IsBlock r.1
    of_block [] = of_found b'\r' b'\n' (b'\r' ∷ b'\n' ∷ []) (scan-Found [])
    of_block (c ∷ []) = of_found c b'\r' (b'\n' ∷ b'\r' ∷ b'\n' ∷ []) (scan-Found (c ∷ []))
    of_block (c ∷ d ∷ t) = of_found c d (t ++ block_end) (scan-Found (c ∷ d ∷ t))

-- Bytes that start with an empty line, and are more than that.
crlf_front :
    (b : Bytes)
    → (ltb 2 (length b) && starts_with crlf b) ≡ true
    → (e : ℕ) × (more : Bytes) × (b ≡ b'\r' ∷ b'\n' ∷ e ∷ more)
crlf_front (c ∷ d ∷ e ∷ more) h = (e, more, ground (arith, h))
crlf_front [] h = cc
crlf_front (c ∷ []) h = cc
crlf_front (c ∷ d ∷ []) h = cc

-- A number of empty lines in front of a text.
abbrev pub behind_empty : ℕ → Bytes → Bytes
behind_empty zero b = b
behind_empty (suc n) b = b'\r' ∷ b'\n' ∷ behind_empty n b

-- Does the text start with an empty line, and go on behind it?
abbrev pub is_empty_first : Bytes → Bool
is_empty_first b = ltb 2 (length b) && starts_with crlf b

abbrev Skipped : Bytes → Outcome Bytes → Type 0
Skipped b o =
    (n : ℕ) × (r : Bytes) × (o ≡ ret r) × (b ≡ behind_empty n r) × (is_empty_first r ≡ false)

skip_crlfs-Skipped : (n : ℕ) (b : Bytes) → length b < n → Skipped b (skip_crlfs n b)
unfolding skip_crlfs getline scan
skip_crlfs-Skipped zero b h = absurd (omega arith)
skip_crlfs-Skipped (suc n) b h = elim (Bool-cases (is_empty_first b)) [
  | inr p ↦ rw (p, skip_crlfs) (0, b, refl, refl, p)
  | inl p ↦
      let (e, more, f) = crlf_front b p in
      let (m, r, g, q, last) = skip_crlfs-Skipped n (e ∷ more) (omega (arith, ap length f, h)) in
      rw (p, skip_crlfs) (rw f (suc m, r, g, ap (λ xs. b'\r' ∷ b'\n' ∷ xs) q, last))
]

-- For any bytes: the constructor of the parser returns, without a fault and within the rounds of its
-- loop; what it leaves is the bytes without a number of empty lines at their front, and does not start
-- with an empty line that has more behind it.
pub line_parser_lem :
    (bytes : Bytes)
    → (n : ℕ) × (r : Bytes) × (line_parser bytes ≡ ret r)
      × (bytes ≡ behind_empty n r)
      × (is_empty_first r ≡ false)
unfolding line_parser
line_parser_lem bytes = skip_crlfs-Skipped (suc (length bytes)) bytes (omega arith)
