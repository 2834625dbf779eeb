-- ===== src/Address.antt =====
-- internal/utils/http_utils.go: addresses. `net.ResolveTCPAddr` is a parameter. The functions that
-- send requests only call net/http and are left out.
use Prim.Native.String.{[], ◌∷◌, ◌++◌ as concat}
use text.Mathlib.TextLemmas.{nil-append, cons-append}
use uknow.Prelude.{
  zero, suc, ◌≡◌, refl, ap, Bool, true, false, String, none, some, Outcome, ok, ◌>>=◌,
  if◌then◌else◌, strip, arith, decimal,
}
use uknow.Prelude.Int.{ℤ, pos, negsuc}

pub record HostPortProtocol : Type 0 where
  pub ip : String
  pub port : ℤ
  pub protocol : String

-- `strings.TrimPrefix`
abbrev trim_prefix : String → String → String
trim_prefix prefix s = elim (strip prefix s) [ none ↦ s | some rest ↦ rest ]

-- `strings.HasPrefix`
abbrev has_prefix : String → String → Bool
has_prefix prefix s = elim (strip prefix s) [ none ↦ false | some rest ↦ true ]

unfoldable pub trim_protocol_prefix : String → String
trim_protocol_prefix addr =
    trim_prefix "http://"
      (trim_prefix "https://" (trim_prefix "tcp://" (trim_prefix "udp://" addr)))

unfoldable pub set_host_port : String → ℤ → HostPortProtocol → HostPortProtocol
set_host_port ip port t = record t { ip = trim_protocol_prefix ip; port = port }

-- `%d`
abbrev print_int : ℤ → String
print_int (pos n) = decimal n
print_int (negsuc n) = concat "-" (decimal (suc n))

abbrev is_zero : ℤ → Bool
is_zero (pos zero) = true
is_zero (pos (suc n)) = false
is_zero (negsuc n) = false

unfoldable pub bind_string : HostPortProtocol → String
bind_string t = if is_zero t.port then t.ip else concat t.ip (concat ":" (print_int t.port))

unfoldable pub http_address_string : HostPortProtocol → String
http_address_string t =
    if is_zero t.port
    then concat "http://" t.ip
    else concat "http://" (concat t.ip (concat ":" (print_int t.port)))

unfoldable pub protocol_of : String → String
protocol_of addr =
    if has_prefix "http://" addr
    then "http"
    else if has_prefix "https://" addr
    then "https"
    else if has_prefix "tcp://" addr
    then "tcp"
    else ""

unfoldable pub resolve_tcp_address :
    {E : Type 0} → (String → Outcome E (String × ℤ)) → String → Outcome E HostPortProtocol
resolve_tcp_address resolve addr = do
  (ip, port) ← resolve (trim_protocol_prefix addr)
  ok (record { ip = ip; port = port; protocol = protocol_of addr })

-- The concatenation, by the characters of the first text.
abbrev spelled : String → String → String
spelled [] s = s
spelled (c ∷ prefix) s = c ∷ spelled prefix s

concat-spelled : (prefix s : String) → concat prefix s ≡ spelled prefix s
concat-spelled [] s = rw nil-append refl
concat-spelled (c ∷ prefix) s = rw cons-append (ap (◌∷◌ c) (concat-spelled prefix s))

trim-http : (s : String) → trim_protocol_prefix (concat "http://" s) ≡ s
unfolding trim_protocol_prefix strip
trim-http s = rw concat-spelled refl

protocol_of-http : (s : String) → protocol_of (concat "http://" s) ≡ "http"
unfolding protocol_of strip
protocol_of-http s = rw concat-spelled refl

-- If the resolver reads back the address that is bound, with a port that is not 0, the address as
-- it is printed for HTTP resolves to the same address and port, for the protocol http.
pub resolve-http_address_string :
    {E : Type 0} (resolve : String → Outcome E (String × ℤ)) (t : HostPortProtocol)
    → is_zero t.port ≡ false
    → resolve (bind_string t) ≡ ok (t.ip, t.port)
    → resolve_tcp_address resolve (http_address_string t)
      ≡ ok (record { ip = t.ip; port = t.port; protocol = "http" })
unfolding bind_string http_address_string resolve_tcp_address
resolve-http_address_string resolve t z e =
    let bound = concat t.ip (concat ":" (print_int t.port)) in
    ground (arith, trim-http bound, protocol_of-http bound)
