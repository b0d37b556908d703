-- ===== src/Tunnel/Address.antt =====
-- server/internal/tunnel/tunnel.go: the public address of the local network. The answers of the services
-- over HTTP, and net.ParseIP, are parameters.
use easy_deploy.Prelude.{
  Bool, Option, none, some, List, [], ◌∷◌, Text, codes, is_empty, if◌then◌else◌,
}
use easy_deploy.Prelude.Trim.{trim_space}
use easy_deploy.Effect.{Result, ok, err}

abbrev read_ip : (Text → Bool) → Option Text → Result Text Text
read_ip is_ip none = err (codes "request")
read_ip is_ip (some body) =
    if is_ip (trim_space body) then ok (trim_space body) else err (codes "non-IP response")

-- `fetch` gives the first 128 bytes of the answer to a request.
unfoldable pub fetch_ip : (Text → Bool) → (Text → Option Text) → Text → Result Text Text
fetch_ip is_ip fetch url = read_ip is_ip (fetch url)

abbrev or_next : Result Text Text → (Text → Result Text Text) → Result Text Text
or_next (ok ip) next = ok ip
or_next (err why) next = next why

abbrev all_failed : Option Text → Result Text Text
all_failed none = err (codes "no public IP service configured")
all_failed (some why) = err why

-- The loop over the candidates, with the last error.
unfoldable pub first_answer :
    (Text → Bool) → (Text → Option Text) → Option Text → List Text → Result Text Text
unfolding fetch_ip
first_answer is_ip fetch last [] = all_failed last
first_answer is_ip fetch last (url ∷ urls) =
    let skipped = first_answer is_ip fetch last urls in
    let next = λ (why : Text). first_answer is_ip fetch (some why) urls in
    if is_empty url then skipped else or_next (fetch_ip is_ip fetch url) next

unfoldable pub public_ip : (Text → Bool) → (Text → Option Text) → Text → Result Text Text
unfolding first_answer
public_ip is_ip fetch service = first_answer is_ip fetch none (
    service
    ∷ codes "http://api.ipify.org"
    ∷ codes "http://icanhazip.com"
    ∷ codes "http://ifconfig.me/ip"
    ∷ codes "https://icanhazip.com"
    ∷ codes "https://ipinfo.io/ip"
    ∷ [])
