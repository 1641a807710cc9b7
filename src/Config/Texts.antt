-- ===== src/Config/Texts.antt =====
-- The texts of a written configuration, as `load_config` and `parse_cidr` (src/peer.c) read them.
use lane_cove_tunnel.Prelude.{
  ℕ, zero, suc, ◌+◌, ◌/◌, ◌%◌, ◌^◌, ◌≤◌, ◌<◌, ◌≡◌, refl, ap, ◌∙◌, true, false, ◌&&◌, ◌==◌, Option,
  none, some, [], ◌∷◌, ◌++◌, ltb, leb, length, take, take_short, length-append, arith, Bool-cases,
  inl, inr,
}
use lane_cove_tunnel.Prelude.Int.{pos}
use lane_cove_tunnel.Prelude.Bytes.{Bytes, bytes_eq}
use lane_cove_tunnel.World.{Env}
use lane_cove_tunnel.Decimal.{digits, decimal}
use lane_cove_tunnel.Decimal.RoundTrip.{atoi-decimal, length-decimal, length-decimal_short}
use lane_cove_tunnel.Cidr.{atoi, split_slash, prefix_of, prefix_at, parse_cidr}
use lane_cove_tunnel.Cidr.Mask.{mask_of-ones, bit_and-mask_of}
use lane_cove_tunnel.Config.{Settings}
use lane_cove_tunnel.Config.Values.{set_setting, split_colon, parse_endpoint}
use lane_cove_tunnel.Config.Written.{
  Setting, interface, address, private_key_file, pre_shared_key, port, keepalive_interval,
  rekey_after, reconnect_interval, session_expiry, prev_key_grace, handshake_timeout,
  handshake_cooldown, verbose, key_of, value_of, apply_setting, IsSetting, Route, route_text,
  prefix_of_route, has_slash, IsRoute,
}

pub take-key_of : (x : Setting) → take 63 (key_of x) ≡ key_of x
unfolding key_of
take-key_of (interface v) = refl
take-key_of (address v) = refl
take-key_of (private_key_file v) = refl
take-key_of (pre_shared_key v) = refl
take-key_of (port n) = refl
take-key_of (keepalive_interval n) = refl
take-key_of (rekey_after n) = refl
take-key_of (reconnect_interval n) = refl
take-key_of (session_expiry n) = refl
take-key_of (prev_key_grace n) = refl
take-key_of (handshake_timeout n) = refl
take-key_of (handshake_cooldown n) = refl
take-key_of (verbose on) = refl

-- A setting sets what it stands for, and nothing else.
pub set_setting-value_of :
    (x : Setting) (s : Settings)
    → IsSetting x
    → set_setting (key_of x) (value_of x) s ≡ apply_setting x s
unfolding set_setting key_of value_of apply_setting IsSetting bytes_eq
set_setting-value_of (interface v) s h = rw (take_short v 15 h) refl
set_setting-value_of (address v) s h = rw (take_short v 63 h) refl
set_setting-value_of (private_key_file v) s h = rw (take_short v 255 h) refl
set_setting-value_of (pre_shared_key v) s h = rw (take_short v 255 h) refl
set_setting-value_of (port n) s h = rw (atoi-decimal n h) refl
set_setting-value_of (keepalive_interval n) s h = rw (atoi-decimal n h) refl
set_setting-value_of (rekey_after n) s h = rw (atoi-decimal n h) refl
set_setting-value_of (reconnect_interval n) s h = rw (atoi-decimal n h) refl
set_setting-value_of (session_expiry n) s h = rw (atoi-decimal n h) refl
set_setting-value_of (prev_key_grace n) s h = rw (atoi-decimal n h) refl
set_setting-value_of (handshake_timeout n) s h = rw (atoi-decimal n h) refl
set_setting-value_of (handshake_cooldown n) s h = rw (atoi-decimal n h) refl
set_setting-value_of (verbose true) s h = refl
set_setting-value_of (verbose false) s h = refl

split_slash-append :
    (before after : Bytes)
    → has_slash before ≡ false
    → split_slash (before ++ (b'/' ∷ after)) ≡ (before, some after)
unfolding split_slash
split_slash-append [] after h = refl
split_slash-append (b ∷ before) after h =
    let here : (b == b'/') ≡ false = ground (arith, h) in
    let later = split_slash-append before after (ground (arith, h)) in rw (later, here) refl

-- The last colon is the one before the port.
digits_colon :
    (fuel n : ℕ) (acc : Bytes) → split_colon acc ≡ none → split_colon (digits fuel n acc) ≡ none
unfolding digits split_colon
digits_colon zero n acc h = h
digits_colon (suc fuel) n acc h =
    let here : ((b'0' + n % 10) == b':') ≡ false = ground arith in
    elim (Bool-cases (ltb n 10)) [
      | inl small ↦ rw (small, digits) (rw (h, here) refl)
      | inr big ↦
          rw (big, digits) (digits_colon fuel (n / 10) ((b'0' + n % 10) ∷ acc) (rw (h, here) refl))
    ]

split_colon-append :
    (before after : Bytes)
    → split_colon after ≡ none
    → split_colon (before ++ (b':' ∷ after)) ≡ some (before, after)
unfolding split_colon
split_colon-append [] after h = rw h refl
split_colon-append (b ∷ before) after h = rw (split_colon-append before after h) refl

parse_host :
    (v before after : Bytes) (b n : ℕ)
    → split_colon (take 255 v) ≡ some (b ∷ before, after)
    → atoi after ≡ pos n
    → 1 ≤ n
    → n ≤ 65535
    → parse_endpoint v ≡ some (b ∷ before, n)
unfolding parse_endpoint
parse_host v before after b n splits number low high =
    let in_range : (leb 1 n && leb n 65535) ≡ true = ground (arith, low, high) in
    rw (splits, parse_endpoint, number, in_range) refl

pub parse_endpoint-decimal :
    (host : Bytes) (n : ℕ)
    → 0 < length host
    → length host ≤ 248
    → 1 ≤ n
    → n ≤ 65535
    → parse_endpoint (host ++ (b':' ∷ decimal n)) ≡ some (host, n)
unfolding decimal split_colon
parse_endpoint-decimal [] n named sized low high = absurd (omega arith)
parse_endpoint-decimal (b ∷ host) n named sized low high =
    let text = (b ∷ host) ++ (b':' ∷ decimal n) in
    let whole =
      take_short text 255 (
        omega (arith, sized, length-decimal n high, length-append (b ∷ host) (b':' ∷ decimal n))) in
    parse_host text host (decimal n) b n
      (ap split_colon whole
        ∙ split_colon-append (b ∷ host) (decimal n) (digits_colon (suc n) n [] refl))
      (atoi-decimal n (omega (arith, high))) low high

parse_prefix :
    (inet_pton : Bytes → Option ℕ) (cidr before after : Bytes) (p ip : ℕ)
    → split_slash (take 31 cidr) ≡ (before, some after)
    → atoi after ≡ pos p
    → p ≤ 32
    → inet_pton before ≡ some ip
    → parse_cidr inet_pton cidr ≡ some (prefix_at ip p)
unfolding parse_cidr prefix_of
parse_prefix inet_pton cidr before after p ip splits number short read =
    let fits : ltb 32 p ≡ false = ground (arith, short) in
    let length_of : prefix_of (some after) ≡ some p = rw (number, prefix_of, fits) refl in
    let good : prefix_of (split_slash (take 31 cidr)).1 ≡ some p =
      ap (λ (t : Bytes × Option Bytes). prefix_of t.1) splits ∙ length_of in
    let known : inet_pton (split_slash (take 31 cidr)).0 ≡ some ip =
      ap (λ (t : Bytes × Option Bytes). inet_pton t.0) splits ∙ read in
    rw (parse_cidr, good, known) refl

prefix_at-bits :
    (r : Route)
    → r.prefix_len ≤ 32
    → r.ip < 2 ^ 32
    → prefix_at r.ip r.prefix_len ≡ prefix_of_route r
unfolding prefix_at prefix_of_route
prefix_at-bits r short ipv4 =
    let (ones, whole) = mask_of-ones r.prefix_len short in
    rw (bit_and-mask_of r.prefix_len r.ip short ipv4) (rw ones refl)

pub parse_cidr-route_text :
    {PKey : Type 0} (e : Env PKey) (inet_pton : Bytes → Option ℕ) (r : Route)
    → IsRoute e inet_pton r
    → parse_cidr inet_pton (route_text r) ≡ some (prefix_of_route r)
parse_cidr-route_text e inet_pton r h =
    let d = decimal r.prefix_len in
    let short = length-decimal_short r.prefix_len (omega (arith, h.short)) in
    let whole =
      take_short (route_text r) 31
        (omega (arith, h.sized, short, length-append r.address (b'/' ∷ d))) in
    parse_prefix inet_pton (route_text r) r.address d r.prefix_len r.ip
      (ap split_slash whole ∙ split_slash-append r.address d h.plain)
      (atoi-decimal r.prefix_len (omega (arith, h.short))) h.short h.read
    ∙ ap some (prefix_at-bits r h.short h.ipv4)
