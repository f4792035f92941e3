-- ===== src/Middleware/Capture.antt =====
-- `captureWriter` of internal/middleware/capture.go, which holds the response of an attempt back. The
-- response headers, which `FlushTo` adds to the client's, are left out.
use aegis_llm.Prelude.{
  ℕ, ◌+◌, Bool, true, false, ltb, ℤ, pos, List, [], ◌∷◌, ◌++◌, Bytes, length, if◌then◌else◌,
}
use aegis_llm.Server.Context.{RequestContext, write_header, write}

-- gatewayconst.MaxCapturedResponseBytes
abbrev pub max_captured_response_bytes : ℕ
max_captured_response_bytes = 4194304

pub record CaptureWriter : Type 0 where
  pub body : Bytes
  pub status : ℤ
  pub wrote_head : Bool
  pub overflowed : Bool

abbrev pub new_capture_writer : CaptureWriter
new_capture_writer = record { body = []; status = pos 200; wrote_head = false; overflowed = false }

-- `WriteHeader`
unfoldable pub capture_header : ℤ → CaptureWriter → CaptureWriter
capture_header code w = if w.wrote_head then w else record w { wrote_head = true; status = code }

-- `Write`
unfoldable pub capture : Bytes → CaptureWriter → CaptureWriter
unfolding capture_header
capture p w =
    let ready = capture_header (pos 200) w in
    if ltb max_captured_response_bytes (length ready.body + length p)
    then record ready { overflowed = true }
    else record ready { body = ready.body ++ p }

-- What a dispatch does to the writer it gets.
pub data Effect : Type 0 where
  head : ℤ → Effect
  chunk : Bytes → Effect

abbrev pub capture_one : Effect → CaptureWriter → CaptureWriter
capture_one (head code) w = capture_header code w
capture_one (chunk p) w = capture p w

unfoldable pub capture_all : List Effect → CaptureWriter → CaptureWriter
unfolding capture_header capture
capture_all [] w = w
capture_all (e ∷ es) w = capture_all es (capture_one e w)

module _ {F : Type 0} where
  -- `FlushTo` the client.
  unfoldable pub flush_to : CaptureWriter → RequestContext F → RequestContext F
  unfolding write_header write
  flush_to w ctx = write w.body (write_header w.status ctx)

  abbrev pub send_one : Effect → RequestContext F → RequestContext F
  send_one (head code) ctx = write_header code ctx
  send_one (chunk p) ctx = write p ctx

  -- The same effects on the client's writer.
  unfoldable pub send_all : List Effect → RequestContext F → RequestContext F
  unfolding write_header write
  send_all [] ctx = ctx
  send_all (e ∷ es) ctx = send_all es (send_one e ctx)

-- The bytes of all chunks.
unfoldable pub sent : List Effect → Bytes
sent [] = []
sent (head code ∷ es) = sent es
sent (chunk p ∷ es) = p ++ sent es
