-- ===== src/Camera/Tests/Transport.antt =====
-- The transports of a usual installation.
use tuw_spike.Base.{◌≡◌, ◌≢◌, List, [], ◌∷◌, ◌++◌, All}
use tuw_spike.Base.Text.{Bytes, bytes}
use tuw_spike.Camera.Transport.{raw_transport, suffix, allowlist}
use tuw_spike.Camera.Transport.Allowed.{allowlist-allows}

abbrev raw_pub : Bytes
raw_pub = bytes "image_transport/raw_pub"

abbrev theora : Bytes
theora = bytes "theora/theora"

allowlist-allows_example :
    let names = allowlist (raw_pub ∷ (theora ++ suffix) ∷ []) in
    All (λ n. n ≢ raw_transport) names
    × (front : List Bytes) × (back : List Bytes) × (names ≡ front ++ theora ∷ back)
allowlist-allows_example = allowlist-allows (raw_pub ∷ []) [] theora (λ e. cc e)
