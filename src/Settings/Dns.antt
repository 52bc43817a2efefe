-- ===== src/Settings/Dns.antt =====
-- The DNS servers of src/config.rs, which stand as one text or as a sequence of texts.
use easynet.Prelude.{
  ◌≡◌, refl, sym, ◌∙◌, false, Option, none, some, List, [], ◌∷◌, ◌++◌, append_assoc, append-nil,
  is_empty, map, All, ok_or, Result, ok, err, ◌>>=◌, Bool-cases, inl, inr,
}
use easynet.Text.{Text, trim, split}
use easynet.Net.{IpAddr}
use easynet.Rule.{comma}
use easynet.Settings.{
  IpFormat, SettingsError, bad_address, str, seq, parse_dns_servers, push_servers,
  deserialize_tun_dns_servers,
}

abbrev Servers : Type 0
Servers = Result (List IpAddr) SettingsError

-- One address that parses, or not, and what the rest gives.
push_parsed :
    (o : Option IpAddr) (dns_servers : List IpAddr) (rest : Servers) (pushed : IpAddr → Servers)
    → ((ip : IpAddr) → pushed ip ≡ (rest >>= λ more. ok ((dns_servers ++ ip ∷ []) ++ more)))
    → (let r : Servers = elim o [ none ↦ err bad_address | some ip ↦ pushed ip ] in r) ≡ (
        (ok_or bad_address o >>= λ ip. (rest >>= λ ips'. ok (ip ∷ ips'))) >>= λ more.
        ok (dns_servers ++ more))
push_parsed none dns_servers rest pushed ih = refl
push_parsed (some ip) dns_servers (ok more) pushed ih =
    rw (ih ip, append_assoc dns_servers (ip ∷ []) more) refl
push_parsed (some ip) dns_servers (err e) pushed ih = ih ip

module _ (ips : IpFormat) where
  -- The loop puts what `parse_dns_servers` collects behind what it has.
  pub push_servers-parse_dns_servers :
      (dns_servers : List IpAddr) (values : List Text)
      → push_servers ips dns_servers values
        ≡ (parse_dns_servers ips values >>= λ more. ok (dns_servers ++ more))
  unfolding push_servers parse_dns_servers
  push_servers-parse_dns_servers dns_servers [] = rw (append-nil dns_servers) refl
  push_servers-parse_dns_servers dns_servers (value ∷ values) =
      elim (Bool-cases (is_empty (trim value))) [
        | inl e ↦ rw e (push_servers-parse_dns_servers dns_servers values)
        | inr e ↦ rw e (
            push_parsed (ips.parse_ip (trim value)) dns_servers (parse_dns_servers ips values)
              (λ ip. push_servers ips (dns_servers ++ ip ∷ []) values)
              (λ ip. push_servers-parse_dns_servers (dns_servers ++ ip ∷ []) values))
      ]

  kept_whole : (r : Servers) → (r >>= λ more. ok ([] ++ more)) ≡ r
  kept_whole (ok more) = refl
  kept_whole (err e) = refl

  -- A text is read like the sequence of its parts between the commas, errors included.
  pub deserialize_tun_dns_servers-split :
      (value : Text)
      → deserialize_tun_dns_servers ips (str value)
        ≡ deserialize_tun_dns_servers ips (seq (split comma value))
  unfolding deserialize_tun_dns_servers
  deserialize_tun_dns_servers-split value =
      sym (push_servers-parse_dns_servers [] (split comma value) ∙ kept_whole _)

  -- An address whose text is not blank and parses back to it.
  abbrev pub IsShown : IpAddr → Type 0
  IsShown ip =
      (is_empty (trim (ips.show_ip ip)) ≡ false) × (ips.parse_ip (trim (ips.show_ip ip)) ≡ some ip)

  parse_dns_servers-show_ip :
      (l : List IpAddr) → All IsShown l → parse_dns_servers ips (map ips.show_ip l) ≡ ok l
  unfolding parse_dns_servers
  parse_dns_servers-show_ip [] _ = refl
  parse_dns_servers-show_ip (ip ∷ l) ((full, back), h) =
      rw (full, back, parse_dns_servers-show_ip l h) refl

  -- The sequence of texts that is written for addresses is read back to them.
  pub deserialize_tun_dns_servers-show_ip :
      (l : List IpAddr)
      → All IsShown l
      → deserialize_tun_dns_servers ips (seq (map ips.show_ip l)) ≡ ok l
  unfolding deserialize_tun_dns_servers
  deserialize_tun_dns_servers-show_ip l h =
      push_servers-parse_dns_servers [] (map ips.show_ip l)
      ∙ rw (parse_dns_servers-show_ip l h) refl
