-- ===== src/Node/Stream.antt =====
-- The loop of the responder on a stream of frames, however `read` cuts it and whatever times out.
use egg_project.Prelude.{
  ℕ, zero, suc, ◌+◌, ◌<◌, ◌≡◌, refl, sym, ap, ◌∙◌, subst, true, List, [], ◌∷◌, ◌++◌, length, ok,
  err, All, arith,
}
use mathlib.Core.Path.{fun_ext}
use egg_project.Bytes.{Bytes}
use egg_project.Exec.{◌>>◌}
use egg_project.Kv.{KvStore}
use egg_project.Crypto.Hashing.{Blake3}
use egg_project.Net.Message.{Message}
use egg_project.Net.Frame.{decode_frame}
use egg_project.Chain.Defs.{ChainState}
use egg_project.Node.Defs.{
  ErrorKind, is_io_timeout, io, Read, chunk, failed, Input, on_decoded, on_read, recv_from, recv,
  timeout, incoming, io_incoming, Received, timed_out, would_block, unexpected_eof, other_kind,
}
use egg_project.Node.Recv.{IsAlive, joined, AreFrames, got, late, recv_from_stream}
use egg_project.Node.Session.{Session, Serving}
use egg_project.Node.Responder.{serve, on_incoming, respond}

incoming_late : (k : ErrorKind) → is_io_timeout k ≡ true → incoming (err (io k)) ≡ timeout
unfolding incoming io_incoming
incoming_late timed_out e = refl
incoming_late would_block e = refl
incoming_late unexpected_eof e = absurd (cc e)
incoming_late other_kind e = absurd (cc e)

-- The peer's end of the connection: `read` returns 0.
abbrev pub end_of_stream : List Read
end_of_stream = chunk [] ∷ []

nothing_buffered : (i : Input) (r : Received) → on_decoded (decode_frame []) i r ≡ r
unfolding on_decoded decode_frame
nothing_buffered i r = refl

module _ (kv : KvStore) (st : ChainState kv.State) (b3 : Blake3) where
  -- One message at a time, with no bytes and no network.
  unfoldable pub serve_all : List Message → Serving (Unit {0})
  unfolding serve ◌>>◌
  serve_all [] r = (ok tt, r)
  serve_all (m ∷ ms) r = (serve kv st b3 m >> serve_all ms) r

  on_message :
      (n : ℕ) (i j : Input) (m : Message) (r : Session)
      → recv i ≡ (ok m, j)
      → respond kv st b3 (suc n) i r ≡ (serve kv st b3 m >> respond kv st b3 n j) r
  unfolding respond on_incoming incoming
  on_message n i j m r e = rw e

  on_timeout :
      (n : ℕ) (i j : Input) (k : ErrorKind) (r : Session)
      → recv i ≡ (err (io k), j)
      → is_io_timeout k ≡ true
      → respond kv st b3 (suc n) i r ≡ respond kv st b3 n j r
  unfolding respond on_incoming
  on_timeout n i j k r e t =
      ap (λ x. on_incoming kv st b3 (incoming x.0) (respond kv st b3 n x.1) r) e
      ∙ rw (incoming_late k t)

  quiet :
      (rs : List Read)
      → recv_from (chunk [] ∷ rs) [] ≡ (err (io unexpected_eof), record { reads = rs; buf = [] })
  unfolding recv_from
  quiet rs = nothing_buffered _ _

  on_end :
      (n : ℕ) (r : Session)
      → respond kv st b3 (suc n) (record { reads = end_of_stream; buf = [] }) r ≡ (ok tt, r)
  unfolding respond recv on_incoming incoming io_incoming
  on_end n r = rw (quiet [])

  -- A round with an empty buffer and nothing to come but timeouts.
  still :
      (n : ℕ) (k : ErrorKind) (rs : List Read) (r : Session)
      → is_io_timeout k ≡ true
      → respond kv st b3 (suc n) (record { reads = failed k ∷ rs; buf = [] }) r
        ≡ respond kv st b3 n (record { reads = rs; buf = [] }) r
  unfolding recv recv_from on_read
  still n k rs r t =
      on_timeout n (record { reads = failed k ∷ rs; buf = [] }) (record { reads = rs; buf = [] }) k
        r (nothing_buffered _ _) t

  -- Where the bytes that `read` brings are the frames of a list of messages, then the end of the
  -- connection, the responder does what it does on these messages one after the other, however
  -- `read` cuts the bytes and however often it times out, with more rounds than there are calls of
  -- `read` and messages.
  pub respond_stream :
      (n : ℕ) (ms : List Message) (rs : List Read) (buf : Bytes) (r : Session)
      → All IsAlive rs
      → AreFrames ms (buf ++ joined rs)
      → length rs + length ms < n
      → respond kv st b3 n (record { reads = rs ++ end_of_stream; buf = buf }) r ≡ serve_all ms r
  unfolding serve_all recv recv_from
  respond_stream zero ms rs buf r a f l = absurd (omega (arith, l))
  respond_stream (suc n) [] [] [] r a f l = on_end n r
  respond_stream (suc n) [] (chunk [] ∷ rs) [] r a f l = elim a.0 [ ]
  respond_stream (suc n) [] (chunk (c ∷ cs) ∷ rs) [] r a f l = absurd (cc f)
  respond_stream (suc n) [] (failed k ∷ rs) [] r a f l =
      still n k (rs ++ end_of_stream) r a.0 ∙ respond_stream n [] rs [] r a.1 f (omega (arith, l))
  respond_stream (suc n) [] rs (b ∷ buf) r a f l = absurd (cc f)
  respond_stream (suc n) (m ∷ ms) rs buf r a (g, rest, v, e, fs, q) l =
      elim (recv_from_stream end_of_stream m g rest v e rs buf a q) [
        | got rs' b p a' l' q' ↦
            on_message n _ _ m r p
            ∙ ap (λ k. (serve kv st b3 m >> k) r)
                (fun_ext (λ r'.
                  respond_stream n ms rs' b r' a' (subst (AreFrames ms) (sym q') fs)
                    (omega (arith, l, l'))))
        | late k rs' b p t a' l' q' ↦
            on_timeout n _ _ k r p t
            ∙ respond_stream n (m ∷ ms) rs' b r a' (g, rest, v, e, fs, q') (omega (arith, l, l'))
      ]
