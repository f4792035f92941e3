-- ===== src/Middleware/Replay.antt =====
-- What the `captureWriter` of internal/middleware/capture.go keeps of a dispatch, and what its
-- `FlushTo` replays.
use aegis_llm.Prelude.{
  ◌+◌, ◌≤◌, ◌≡◌, refl, sym, ap, ◌∙◌, true, false, ◌||◌, ltb, ℤ, pos, List, [], ◌∷◌, ◌++◌, arith,
  Bytes, length, length-append, if_elim, Bool-cases, inl, inr,
}
use mathlib.Core.List.{append-nil, append_assoc}
use aegis_llm.Server.Context.{RequestContext, write_header, write}
use aegis_llm.Middleware.Capture.{
  CaptureWriter, Effect, head, chunk, new_capture_writer, capture_header, capture, capture_all,
  flush_to, send_all, sent, max_captured_response_bytes,
}

-- A header changes neither the body nor the flag.
capture_header-same :
    (code : ℤ) (w : CaptureWriter)
    → ((capture_header code w).body ≡ w.body) × ((capture_header code w).overflowed ≡ w.overflowed)
unfolding capture_header
capture_header-same code w = ground arith

-- What holds of a writer when the effects have passed through it.
pub record IsKept (w : CaptureWriter) (es : List Effect) (out : CaptureWriter) : Type 0 where
  pub bounded : length out.body ≤ max_captured_response_bytes
  pub flagged :
      out.overflowed
      ≡ (w.overflowed || ltb max_captured_response_bytes (length w.body + length (sent es)))
  pub whole : out.overflowed ≡ false → out.body ≡ w.body ++ sent es

capture-fits :
    (w : CaptureWriter) (p : Bytes)
    → ltb max_captured_response_bytes (length w.body + length p) ≡ false
    → ((capture p w).body ≡ w.body ++ p) × ((capture p w).overflowed ≡ w.overflowed)
unfolding capture capture_header
capture-fits w p h = ground (arith, h)

capture_over :
    (w : CaptureWriter) (p : Bytes)
    → ltb max_captured_response_bytes (length w.body + length p) ≡ true
    → ((capture p w).body ≡ w.body) × ((capture p w).overflowed ≡ true)
unfolding capture capture_header
capture_over w p h = ground (arith, h)

-- A writer that is within its maximum stays within it. It says that it overflowed exactly when it said
-- so before or the bytes that it was to hold are more than that, and when it does not say so, it holds
-- all of them.
pub capture_all-IsKept :
    (es : List Effect) (w : CaptureWriter)
    → length w.body ≤ max_captured_response_bytes
    → IsKept w es (capture_all es w)
unfolding capture_all sent
capture_all-IsKept [] w h = record {
  bounded = h;
  flagged = ground arith;
  whole = λ e. sym (append-nil w.body);
}
capture_all-IsKept (head code ∷ es) w h =
    let same = capture_header-same code w in
    let kept = capture_all-IsKept es (capture_header code w) (rw same.0 h) in
    record {
      bounded = kept.bounded;
      flagged = ground (arith, kept.flagged, same);
      whole = λ e. kept.whole e ∙ rw same.0 refl;
    }
capture_all-IsKept (chunk p ∷ es) w h =
    elim (Bool-cases (ltb max_captured_response_bytes (length w.body + length p))) [
      | inl over ↦
          let dropped = capture_over w p over in
          let kept = capture_all-IsKept es (capture p w) (rw dropped.0 h) in
          record {
            bounded = kept.bounded;
            flagged = ground (arith, kept.flagged, dropped, length-append p (sent es));
            whole = λ e. absurd (ground (arith, kept.flagged, dropped, e));
          }
      | inr fits ↦
          let held = capture-fits w p fits in
          let total = length-append w.body p in
          let kept = capture_all-IsKept es (capture p w) (ground (arith, held, total)) in
          record {
            bounded = kept.bounded;
            flagged = ground (arith, kept.flagged, held, total, length-append p (sent es));
            whole = λ e. kept.whole e ∙ rw held.0 (append_assoc w.body p (sent es));
          }
    ]

-- With the head written, a chunk that fits is only added to the body.
capture-late :
    (w : CaptureWriter) (p : Bytes)
    → w.wrote_head ≡ true
    → ltb max_captured_response_bytes (length w.body + length p) ≡ false
    → ((capture p w).wrote_head ≡ true) × ((capture p w).status ≡ w.status)
unfolding capture capture_header
capture-late w p h fits = ground (arith, h, fits)

head_late : (code : ℤ) (w : CaptureWriter) → w.wrote_head ≡ true → capture_header code w ≡ w
unfolding capture_header
head_late code w h = if_elim (λ v. v ≡ w) w.wrote_head (λ e. refl) (λ e. absurd cc)

module _ {F : Type 0} where
  committed-write_header :
      (code : ℤ) (ctx : RequestContext F) → (write_header code ctx).committed ≡ true
  unfolding write_header
  committed-write_header code ctx = ground arith

  write_header_again :
      (code : ℤ) (ctx : RequestContext F) → ctx.committed ≡ true → write_header code ctx ≡ ctx
  unfolding write_header
  write_header_again code ctx h = if_elim (λ c. c ≡ ctx) ctx.committed (λ e. refl) (λ e. absurd cc)

  write_committed :
      (p : Bytes) (ctx : RequestContext F)
      → ctx.committed ≡ true
      → write p ctx ≡ record ctx { client_body = ctx.client_body ++ p }
  unfolding write
  write_committed p ctx h =
      ap (λ (c : RequestContext F). record c { client_body = c.client_body ++ p })
        (write_header_again (pos 200) ctx h)

  -- Two chunks that follow each other are one.
  write-append :
      (p q : Bytes) (ctx : RequestContext F)
      → ctx.committed ≡ true
      → write (p ++ q) ctx ≡ write q (write p ctx)
  write-append p q ctx h =
      write_committed (p ++ q) ctx h
      ∙ ap (λ (b : Bytes). record ctx { client_body = b }) (sym (append_assoc ctx.client_body p q))
      ∙ sym (
          ap (write q) (write_committed p ctx h)
          ∙ write_committed q (record ctx { client_body = ctx.client_body ++ p }) h)

  write-nil : (ctx : RequestContext F) → ctx.committed ≡ true → write [] ctx ≡ ctx
  write-nil ctx h =
      write_committed [] ctx h
      ∙ ap (λ (b : Bytes). record ctx { client_body = b }) (append-nil ctx.client_body)

  -- Only the status and the body count for what is flushed.
  flush_same :
      (v w : CaptureWriter) (ctx : RequestContext F)
      → v.status ≡ w.status
      → v.body ≡ w.body
      → flush_to v ctx ≡ flush_to w ctx
  unfolding flush_to
  flush_same v w ctx s b = λ i. write (b i) (write_header (s i) ctx)

  flush_committed : (w : CaptureWriter) (ctx : RequestContext F) → (flush_to w ctx).committed ≡ true
  unfolding flush_to
  flush_committed w ctx =
      ap (λ (c : RequestContext F). c.committed)
        (write_committed w.body (write_header w.status ctx) (committed-write_header w.status ctx))
      ∙ committed-write_header w.status ctx

  flush-chunk :
      (w : CaptureWriter) (p : Bytes) (ctx : RequestContext F)
      → w.wrote_head ≡ true
      → ltb max_captured_response_bytes (length w.body + length p) ≡ false
      → flush_to (capture p w) ctx ≡ write p (flush_to w ctx)
  unfolding flush_to
  flush-chunk w p ctx h fits =
      flush_same (capture p w) (record w { body = w.body ++ p }) ctx (capture-late w p h fits).1
        (capture-fits w p fits).0
      ∙ write-append w.body p (write_header w.status ctx) (committed-write_header w.status ctx)

  -- With the head written, every further effect on the writer shows at the client as it is.
  flush-capture :
      (es : List Effect) (w : CaptureWriter) (ctx : RequestContext F)
      → w.wrote_head ≡ true
      → length w.body + length (sent es) ≤ max_captured_response_bytes
      → flush_to (capture_all es w) ctx ≡ send_all es (flush_to w ctx)
  unfolding capture_all send_all sent
  flush-capture [] w ctx h fits = refl
  flush-capture (head code ∷ es) w ctx h fits =
      ap (λ v. flush_to (capture_all es v) ctx) (head_late code w h)
      ∙ flush-capture es w ctx h fits
      ∙ ap (send_all es) (sym (write_header_again code (flush_to w ctx) (flush_committed w ctx)))
  flush-capture (chunk p ∷ es) w ctx h fits =
      let small : ltb max_captured_response_bytes (length w.body + length p) ≡ false =
        ground (arith, length-append p (sent es)) in
      let left : length (capture p w).body + length (sent es) ≤ max_captured_response_bytes =
        ground (arith, length-append p (sent es), length-append w.body p, capture-fits w p small) in
      flush-capture es (capture p w) ctx (capture-late w p h small).0 left
      ∙ ap (send_all es) (flush-chunk w p ctx h small)

  -- A dispatch that wrote something that fits looks the same to the client, whether it went through
  -- the writer and was flushed, or was written to the client at once.
  pub flush-capture_all :
      (e : Effect) (es : List Effect) (ctx : RequestContext F)
      → length (sent (e ∷ es)) ≤ max_captured_response_bytes
      → flush_to (capture_all (e ∷ es) new_capture_writer) ctx ≡ send_all (e ∷ es) ctx
  unfolding capture_all send_all sent capture_header capture flush_to
  flush-capture_all (head code) es ctx fits =
      flush-capture es (capture_header code new_capture_writer) ctx refl (omega arith)
      ∙ ap (send_all es) (write-nil (write_header code ctx) (committed-write_header code ctx))
  flush-capture_all (chunk p) es ctx fits =
      flush-capture (chunk p ∷ es) (capture_header (pos 200) new_capture_writer) ctx refl
        (omega arith)
      ∙ ap (send_all es) (
          ap (write p)
            (write-nil (write_header (pos 200) ctx) (committed-write_header (pos 200) ctx))
          ∙ write_committed p (write_header (pos 200) ctx) (committed-write_header (pos 200) ctx))
