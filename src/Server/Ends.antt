-- ===== src/Server/Ends.antt =====
-- How the loop over `recv` of `handle_client` in src/main.c ends. A length that would keep the message loop at
-- one place has a byte 255 in it, so streams without that byte are considered.
use secure_ci_coding.Base.{
  ℕ, ◌+◌, ◌-◌, ◌≤◌, ◌<◌, ◌≡◌, ◌≢◌, ◌⊎◌, ◌∙◌, inl, inr, refl, ap, arith, Bytes, true, false,
  Bool-cases, some, List, [], ◌∷◌, length, take, drop, ◌==◌, ltb, ◌&&◌, if_both, byte_at, read32,
  All, All-append, All-take, All-drop, get_or-All,
}
use secure_ci_coding.Common.{proto_hdr_len, net_buffer_size}
use secure_ci_coding.Protocol.{message_size}
use secure_ci_coding.Server.{
  Request, Outcome, closing, waiting, running, process_loop, Client, received, shifted, reset,
  after_process, receive, ended, going, after_round, client_loop,
}
use secure_ci_coding.Server.Framing.{process_loop_ends}
use secure_ci_coding.Server.Receive.{receive_leaves}

-- No byte is 255.
abbrev pub IsPlain : Bytes → Type 0
IsPlain m = All (λ c. c < 255) m

-- What one `recv` may give here.
abbrev pub IsChunk : Bytes → Type 0
IsChunk chunk = IsPlain chunk × (length chunk ≤ net_buffer_size)

plain_size : (m : Bytes) → IsPlain m → message_size (read32 m 10) ≢ 0
unfolding read32
plain_size m plain e =
    let small : (i : ℕ) → byte_at m i < 255 =
      λ i. get_or-All (λ c. c < 255) m i 0 (omega arith) plain in
    omega (arith, e, small 10, small (10 + 1), small (10 + 2), small (10 + 3))

received-IsPlain :
    (raw : Bytes) (buf_pos : ℕ) (chunk : Bytes)
    → IsPlain raw
    → IsPlain chunk
    → IsPlain (received raw buf_pos chunk)
received-IsPlain raw buf_pos chunk h k =
    All-append _ (take buf_pos raw) _ (All-take _ buf_pos raw h)
      (All-append _ chunk _ k (All-drop _ (buf_pos + length chunk) raw h))

shifted-IsPlain :
    (raw : Bytes) (buf_pos consumed : ℕ) → IsPlain raw → IsPlain (shifted raw buf_pos consumed)
shifted-IsPlain raw buf_pos consumed h =
    if_both IsPlain (ltb 0 consumed && ltb consumed buf_pos)
      (All-append _ (take (buf_pos - consumed) (drop consumed raw)) _
        (All-take _ (buf_pos - consumed) (drop consumed raw) (All-drop _ consumed raw h))
        (All-drop _ (buf_pos - consumed) raw h))
      h

module _ {S : Type 0} (dispatch : Request → S → S) (n : ℕ) (c : Client S) (chunk : Bytes) where
  receives_nothing : (length chunk == 0) ≡ true → receive dispatch n c chunk ≡ ended c.server
  unfolding receive
  receives_nothing closed = rw closed refl

  receives :
      (length chunk == 0) ≡ false
      → receive dispatch n c chunk
        ≡ after_process (received c.raw c.buf_pos chunk) (c.buf_pos + length chunk) (
            process_loop dispatch n
              (received c.raw c.buf_pos chunk)
              (c.buf_pos + length chunk)
              0
              c.server)
  unfolding receive
  receives more = rw more refl

module _ {S : Type 0} (dispatch : Request → S → S) (n : ℕ) (enough : 4110 ≤ n) where
  -- One round: the message loop ends, and what is kept is plain again.
  receive-IsPlain :
      (c : Client S) (chunk : Bytes)
      → IsPlain c.raw
      → c.buf_pos < proto_hdr_len
      → IsChunk chunk
      → ((s : S) × (receive dispatch n c chunk ≡ ended s))
        ⊎ ((c' : Client S) × (receive dispatch n c chunk ≡ going c')
            × IsPlain c'.raw
            × (c'.buf_pos < proto_hdr_len))
  receive-IsPlain c chunk plain few (clean, size) = elim (Bool-cases (length chunk == 0)) [
    | inl closed ↦ inl (c.server, receives_nothing dispatch n c chunk closed)
    | inr more ↦
        by_outcome (process_loop dispatch n raw buf_pos 0 c.server) refl
          (receives dispatch n c chunk more)
  ]
    where
      raw : Bytes
      raw = received c.raw c.buf_pos chunk

      buf_pos : ℕ
      buf_pos = c.buf_pos + length chunk

      by_outcome :
          (o : Outcome S)
          → process_loop dispatch n raw buf_pos 0 c.server ≡ o
          → receive dispatch n c chunk
            ≡ after_process raw buf_pos (process_loop dispatch n raw buf_pos 0 c.server)
          → ((s : S) × (receive dispatch n c chunk ≡ ended s))
            ⊎ ((c' : Client S) × (receive dispatch n c chunk ≡ going c')
                × IsPlain c'.raw
                × (c'.buf_pos < proto_hdr_len))
      by_outcome running is e = absurd (
          process_loop_ends dispatch raw buf_pos n 0 c.server
            (λ k h.
              plain_size (drop k raw)
                (All-drop _ k raw (received-IsPlain c.raw c.buf_pos chunk plain clean)))
            (omega arith) (omega arith) is)
      by_outcome (closing s) is e = inl (s, e ∙ ap (after_process raw buf_pos) is)
      by_outcome (waiting consumed s) is e =
          let round = e ∙ ap (after_process raw buf_pos) is in
          inr (
            record {
              raw = shifted raw buf_pos consumed;
              buf_pos = reset (buf_pos - consumed);
              server = s;
            },
            round,
            shifted-IsPlain raw buf_pos consumed
                (received-IsPlain c.raw c.buf_pos chunk plain clean),
            receive_leaves S dispatch n c chunk round,
          )

  -- The loop over any number of such pieces ends.
  pub client_loop_ends :
      (chunks : List Bytes) (c : Client S)
      → IsPlain c.raw
      → c.buf_pos < proto_hdr_len
      → All IsChunk chunks
      → (s : S) × (client_loop dispatch n chunks c ≡ some s)
  unfolding client_loop
  client_loop_ends [] c plain few good = (c.server, refl)
  client_loop_ends (chunk ∷ chunks) c plain few (one, good) =
      elim (receive-IsPlain c chunk plain few one) [
        | inl (s, e) ↦ (s, ap (after_round (client_loop dispatch n chunks)) e)
        | inr (c', e, plain', few') ↦
            let (s, rest) = client_loop_ends chunks c' plain' few' good in
            (s, ap (after_round (client_loop dispatch n chunks)) e ∙ rest)
      ]
