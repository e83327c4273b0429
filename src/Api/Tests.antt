-- ===== src/Api/Tests.antt =====
-- Runs of the calls, and the theorems at concrete replies.
use cuttlefish.Common.{◌≡◌, refl, true}
use cuttlefish.Common.Text.{show}
use cuttlefish.Types.{}
use cuttlefish.Api.{
  Fetch, resolved, rejected, api_error, error_object, other, list_entries, list_scans,
}
use cuttlefish.Api.Url.{encode_uri_component}

encodes : encode_uri_component "/a b&é" ≡ "%2Fa%20b%26%C3%A9"
unfolding encode_uri_component
encodes = refl

abbrev expired : {A : Type 0} → Fetch A
expired request = resolved (record { status = 401; body = error_object "session expired" })

expired_list : (list_entries expired "/" true).outcome ≡ rejected (api_error "session expired" 401)
unfolding list_entries
expired_list = refl

bare_scans :
    (list_scans (λ request. resolved (record { status = 502; body = other })) 50).outcome
    ≡ rejected (api_error "API error: 502" 502)
unfolding list_scans show
bare_scans = refl
