-- ===== src/Net.antt =====
-- What the program uses of Rust's `std::net`: addresses, their classes and the IPv4 parser.
pub mod RoundTrip
pub mod Tests
use easynet.Prelude.{
  ℕ, ◌+◌, ◌*◌, ◌/◌, ◌%◌, ◌^◌, ◌<◌, ◌≡◌, refl, ◌↔◌, Bool, true, false, ◌&&◌, ◌||◌, Option, none,
  some, List, ◌++◌, [], ◌∷◌, arith, ltb, leb, ◌==◌, if◌then◌else◌, length,
}
use easynet.Text.{Text, split, scan_digits}
use easynet.Assoc.{Key}

-- Four octets.
pub record Ipv4Addr : Type 0 where
  pub a : ℕ
  pub b : ℕ
  pub c : ℕ
  pub d : ℕ

pub data IpAddr : Type 0 where
  v4 : Ipv4Addr → IpAddr
  v6 : ℕ → IpAddr

-- `SocketAddr`. The flow information and the scope are those of an IPv6 address, and 0 otherwise.
pub record SocketAddr : Type 0 where
  pub ip : IpAddr
  pub port : ℕ
  pub flowinfo : ℕ
  pub scope_id : ℕ

-- `SocketAddr::new`.
abbrev pub socket_addr : IpAddr → ℕ → SocketAddr
socket_addr ip port = record { ip = ip; port = port; flowinfo = 0; scope_id = 0 }

pub record IsOctets (ip : Ipv4Addr) : Type 0 where
  pub a_lt : ip.a < 256
  pub b_lt : ip.b < 256
  pub c_lt : ip.c < 256
  pub d_lt : ip.d < 256

abbrev pub octets : ℕ → ℕ → ℕ → ℕ → Ipv4Addr
octets a b c d = record { a = a; b = b; c = c; d = d }

unfoldable pub ipv4_eq : Ipv4Addr → Ipv4Addr → Bool
ipv4_eq x y = x.a == y.a && x.b == y.b && x.c == y.c && x.d == y.d

pub ipv4_eq_iff : (x y : Ipv4Addr) → (ipv4_eq x y ≡ true) ↔ (x ≡ y)
unfolding ipv4_eq
ipv4_eq_iff x y = ground arith

unfoldable pub ip_eq : IpAddr → IpAddr → Bool
unfolding ipv4_eq
ip_eq (v4 x) (v4 y) = ipv4_eq x y
ip_eq (v6 x) (v6 y) = x == y
ip_eq _ _ = false

unfoldable pub socket_eq : SocketAddr → SocketAddr → Bool
unfolding ip_eq
socket_eq x y =
    ip_eq x.ip y.ip && x.port == y.port && x.flowinfo == y.flowinfo && x.scope_id == y.scope_id

pub ip_eq_iff : (x y : IpAddr) → (ip_eq x y ≡ true) ↔ (x ≡ y)
unfolding ip_eq
ip_eq_iff (v4 x) (v4 y) = ground arith
ip_eq_iff (v4 x) (v6 y) = ground arith
ip_eq_iff (v6 x) (v4 y) = ground arith
ip_eq_iff (v6 x) (v6 y) = ground arith

pub socket_eq_iff : (x y : SocketAddr) → (socket_eq x y ≡ true) ↔ (x ≡ y)
unfolding socket_eq
socket_eq_iff x y = ground (arith, ip_eq_iff x.ip y.ip)

-- `u32::from`.
unfoldable pub to_u32 : Ipv4Addr → ℕ
to_u32 ip = ip.a * 2 ^ 24 + ip.b * 2 ^ 16 + ip.c * 2 ^ 8 + ip.d

unfoldable pub is_private : Ipv4Addr → Bool
is_private ip =
    ip.a == 10 || (ip.a == 172 && leb 16 ip.b && leb ip.b 31) || (ip.a == 192 && ip.b == 168)

unfoldable pub is_loopback : Ipv4Addr → Bool
is_loopback ip = ip.a == 127

unfoldable pub is_link_local : Ipv4Addr → Bool
is_link_local ip = ip.a == 169 && ip.b == 254

unfoldable pub is_unspecified : Ipv4Addr → Bool
is_unspecified ip = ip.a == 0 && ip.b == 0 && ip.c == 0 && ip.d == 0

unfoldable pub is_broadcast : Ipv4Addr → Bool
is_broadcast ip = ip.a == 255 && ip.b == 255 && ip.c == 255 && ip.d == 255

unfoldable pub is_multicast : Ipv4Addr → Bool
is_multicast ip = leb 224 ip.a && leb ip.a 239

unfoldable pub is_multicast_v6 : ℕ → Bool
is_multicast_v6 x = x / 2 ^ 120 == 255

unfoldable pub is_unspecified_v6 : ℕ → Bool
is_unspecified_v6 x = x == 0

-- One to three digits, none of them a needless zero in front, up to 255.
unfoldable pub parse_octet : Text → Option ℕ
unfolding scan_digits
parse_octet [] = none
parse_octet (c ∷ []) = scan_digits 255 0 (c ∷ [])
parse_octet (c ∷ d ∷ s) =
    if c == b'0' || ltb 3 (length (c ∷ d ∷ s)) then none else scan_digits 255 0 (c ∷ d ∷ s)

abbrev and_then {ℓ κ} : {A : Type ℓ} {B : Type κ} → Option A → (A → Option B) → Option B
and_then none f = none
and_then (some a) f = f a

four_octets : List Text → Option Ipv4Addr
four_octets (p ∷ q ∷ r ∷ s ∷ []) = and_then (parse_octet p) (λ a.
    and_then (parse_octet q)
      (λ b. and_then (parse_octet r) (λ c. and_then (parse_octet s) (λ d. some (octets a b c d)))))
four_octets _ = none

-- `parse::<Ipv4Addr>`.
unfoldable pub parse_ipv4 : Text → Option Ipv4Addr
unfolding parse_octet four_octets split
parse_ipv4 s = four_octets (split b'.' s)

instance abbrev pub ipv4_key : Key Ipv4Addr
ipv4_key = record { beq = ipv4_eq; beq_iff = ipv4_eq_iff }

-- `Display` of an octet and of an IPv4 address.
unfoldable pub display_octet : ℕ → Text
display_octet n =
    if ltb n 10
    then (b'0' + n) ∷ []
    else if ltb n 100
    then (b'0' + n / 10) ∷ (b'0' + n % 10) ∷ []
    else (b'0' + n / 100) ∷ (b'0' + (n / 10) % 10) ∷ (b'0' + n % 10) ∷ []

unfoldable pub display_ipv4 : Ipv4Addr → Text
unfolding display_octet
display_ipv4 ip =
    display_octet ip.a
    ++ b'.' ∷ (display_octet ip.b ++ b'.' ∷ (display_octet ip.c ++ b'.' ∷ display_octet ip.d))
