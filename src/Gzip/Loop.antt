-- ===== src/Gzip/Loop.antt =====
-- The loop of `decompressGzip` of order_management.cpp and the calls of `inflate` that it makes.
use mathlib.Core.List.{append-nil, append_assoc}
use deribit_trading_system.Base.{
  ℕ, zero, suc, ◌+◌, ◌-◌, ◌≤◌, ◌<◌, ◌≡◌, ◌≢◌, ◌⊎◌, inl, inr, lt→ltb, refl, ap, ◌∙◌, [], ◌∷◌, ◌++◌,
  some, length, length-append, drop, take_all, arith, subst,
}
use deribit_trading_system.Base.Outcome.{ok, throws, runtime_error}
use deribit_trading_system.Text.{Bytes}
use deribit_trading_system.Gzip.{
  Code, z_ok, z_stream_end, z_other, Zlib, IsLawful, overwrite, append_new, pump, decompress_gzip,
}

length-drop :
    (xs ys : Bytes) → length xs ≤ length ys → length (drop (length xs) ys) + length xs ≡ length ys
length-drop [] ys h = omega arith
length-drop (x ∷ xs) [] h = absurd (omega arith)
length-drop (x ∷ xs) (y ∷ ys) h = omega (arith, length-drop xs ys (omega arith))

length-overwrite : (w b : Bytes) → length w ≤ length b → length (overwrite w b) ≡ length b
length-overwrite w b h = omega (arith, length-append w (drop (length w) b), length-drop w b h)

-- The test and the subtraction take exactly the bytes of the last call.
append_new-eq-append :
    (out w b : Bytes) (total : ℕ)
    → total ≡ length out + length w
    → append_new out (overwrite w b) total ≡ out ++ w
append_new-eq-append out [] b total e = rw append-nil (ground arith)
append_new-eq-append out (x ∷ w) b total e =
    let more : total - length out ≡ length (x ∷ w) = omega arith in
    rw (lt→ltb (length out) total (omega arith), more)
      (ap (◌++◌ out) (take_all (x ∷ w) (drop (length (x ∷ w)) b)))

Code-cases : (c : Code) → (c ≡ z_ok) ⊎ (c ≡ z_stream_end) ⊎ (c ≡ z_other)
Code-cases z_ok = inl refl
Code-cases z_stream_end = inr (inl refl)
Code-cases z_other = inr (inr refl)

module _ (z : Zlib) where
  -- The codes and the bytes of calls of `inflate` until one does not return Z_OK.
  pub data Inflates (room : ℕ) (ret : Code) : z.Stream → Bytes → Type 0 where
    last :
        (zs : z.Stream) → (z.inflate zs room).0 ≡ ret → Inflates room ret zs (z.inflate zs room).1
    more :
        (zs : z.Stream) (rest : Bytes)
        → (z.inflate zs room).0 ≡ z_ok
        → Inflates room ret (z.inflate zs room).2 rest
        → Inflates room ret zs ((z.inflate zs room).1 ++ rest)

  abbrev written : z.Stream → Bytes → Bytes
  written zs outbuffer = (z.inflate zs (length outbuffer)).1

  abbrev rewritten : z.Stream → Bytes → Bytes
  rewritten zs outbuffer = overwrite (written zs outbuffer) outbuffer

  module _ (law : IsLawful z) (fuel : ℕ) (zs : z.Stream) (outbuffer outstring : Bytes) where
    grown :
        z.total_out zs ≡ length outstring
        → append_new outstring
            (rewritten zs outbuffer)
            (z.total_out (z.inflate zs (length outbuffer)).2)
          ≡ outstring ++ (written zs outbuffer)
    grown count =
        append_new-eq-append outstring (written zs outbuffer) outbuffer _
          (omega (arith, law.counted zs (length outbuffer)))

    same_room : length (rewritten zs outbuffer) ≡ length outbuffer
    same_room =
        length-overwrite (written zs outbuffer) outbuffer (law.bounded zs (length outbuffer))

    -- One round that ends the loop.
    pump_end :
        (ret : Code)
        → ret ≢ z_ok
        → (z.inflate zs (length outbuffer)).0 ≡ ret
        → z.total_out zs ≡ length outstring
        → pump z (suc fuel) zs outbuffer outstring ≡ ok (ret, outstring ++ (written zs outbuffer))
    unfolding pump
    pump_end z_ok h e count = absurd (h refl)
    pump_end z_stream_end h e count = rw (e, pump, grown count)
    pump_end z_other h e count = rw (e, pump, grown count)

    -- One round that goes on.
    pump_next :
        (z.inflate zs (length outbuffer)).0 ≡ z_ok
        → z.total_out zs ≡ length outstring
        → pump z (suc fuel) zs outbuffer outstring
          ≡ pump z fuel
              (z.inflate zs (length outbuffer)).2
              (rewritten zs outbuffer)
              (outstring ++ (written zs outbuffer))
    unfolding pump
    pump_next e count = rw (e, pump, grown count)

  abbrev Returns : ℕ → z.Stream → Bytes → Bytes → Type 0
  Returns fuel zs outbuffer outstring =
      (ret : Code) × (all : Bytes) × Inflates (length outbuffer) ret zs all
      × (ret ≢ z_ok)
      × (pump z fuel zs outbuffer outstring ≡ ok (ret, outstring ++ all))

  -- With fuel above what is pending, the loop ends, and has appended all that was written.
  pub pump-Inflates :
      (law : IsLawful z) (fuel : ℕ) (zs : z.Stream) (outbuffer outstring : Bytes)
      → 0 < length outbuffer
      → law.pending zs < fuel
      → z.total_out zs ≡ length outstring
      → Returns fuel zs outbuffer outstring
  pump-Inflates law zero zs b out room enough count = absurd (omega arith)
  pump-Inflates law (suc fuel) zs b out room enough count =
      elim (Code-cases (z.inflate zs (length b)).0) [
        | inl e ↦
            let w = written zs b in
            let b' = rewritten zs b in
            let same = same_room law fuel zs b out in
            let (ret, rest, calls, stopped, eq) =
              pump-Inflates law fuel (z.inflate zs (length b)).2 b' (out ++ w) (omega (arith, same))
                (omega (arith, law.progress zs (length b) room e))
                (omega (arith, law.counted zs (length b), length-append out w)) in
            (
              ret,
              w ++ rest,
              more zs rest e
                  (subst (λ n. Inflates n ret (z.inflate zs (length b)).2 rest) same calls),
              stopped,
              pump_next law fuel zs b out e count
                  ∙ eq
                  ∙ ap (λ o. ok (ret, o)) (append_assoc out w rest),
            )
        | inr (inl e) ↦ ending z_stream_end (λ h. cc) e
        | inr (inr e) ↦ ending z_other (λ h. cc) e
      ]
    where
      ending :
          (ret : Code)
          → ret ≢ z_ok
          → (z.inflate zs (length b)).0 ≡ ret
          → Returns (suc fuel) zs b out
      ending ret h e = (ret, _, last zs e, h, pump_end law fuel zs b out ret h e count)

  -- `decompressGzip` ends. When `inflateInit2` succeeds it returns all the bytes that the calls of
  -- `inflate` wrote up to the first that does not return Z_OK, if that one returns Z_STREAM_END, and
  -- throws otherwise.
  pub decompress_gzip-Inflates :
      (law : IsLawful z) (fuel : ℕ) (outbuffer str : Bytes) (zs : z.Stream)
      → 0 < length outbuffer
      → z.init ≡ some zs
      → law.pending (z.feed zs str) < fuel
      → (ret : Code) × (all : Bytes) × Inflates (length outbuffer) ret (z.feed zs str) all
        × (((ret ≡ z_stream_end) × (decompress_gzip z fuel outbuffer str ≡ ok all))
            ⊎ ((ret ≡ z_other) × (decompress_gzip z fuel outbuffer str ≡ throws runtime_error)))
  unfolding decompress_gzip
  decompress_gzip-Inflates law fuel b str zs room start enough =
      let (ret, all, calls, stopped, eq) =
        pump-Inflates law fuel (z.feed zs str) b [] room enough (law.starts zs str start) in
      (
        ret,
        all,
        calls,
        elim (Code-cases ret) [
          | inl e ↦ absurd (stopped e)
          | inr (inl e) ↦ inl (e, rw (start, decompress_gzip, eq, e))
          | inr (inr e) ↦ inr (e, rw (start, decompress_gzip, eq, e))
        ],
      )
