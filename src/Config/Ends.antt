-- ===== src/Config/Ends.antt =====
-- The loop of `load_config` (src/peer.c) comes to an end.
use lane_cove_tunnel.Prelude.{
  ℕ, zero, suc, ◌+◌, ◌-◌, ◌≤◌, ◌<◌, ◌≡◌, refl, sym, ap, ◌∙◌, Bool, true, false, ◌&&◌, not, Option,
  none, some, Option-cases, Bool-cases, inl, inr, if◌then◌else◌, arith,
}
use lane_cove_tunnel.Prelude.Bytes.{Bytes}
use lane_cove_tunnel.Crypto.{Crypto}
use lane_cove_tunnel.World.{Env, World}
use lane_cove_tunnel.Config.{YamlEvent, LoadState, Loading, start_loading}
use lane_cove_tunnel.Config.Load.{is_end, load_in, load_loop, load_config}

-- An answer of `yaml_parser_parse` after which the loop asks no more: an error, or the stream's end.
abbrev pub is_last : Option YamlEvent → Bool
is_last none = true
is_last (some ev) = is_end ev

module _ {PKey Ctx : Type 0} (c : Crypto PKey Ctx) (e : Env PKey)
    (inet_pton : Bytes → Option ℕ) where
  abbrev next : LoadState → YamlEvent → Loading → World → Bool × Loading × World
  next state ev ld w = load_in c e inet_pton state ev ld w

  load_loop-none :
      (yaml : ℕ → Option YamlEvent) (fuel n : ℕ) (ld : Loading) (w : World)
      → yaml n ≡ none
      → load_loop c e inet_pton yaml (suc fuel) n ld w ≡ some (false, ld, w)
  unfolding load_loop
  load_loop-none yaml fuel n ld w broken = rw (broken, load_loop) refl

  pub load_loop-some :
      (yaml : ℕ → Option YamlEvent) (fuel n : ℕ) (ld : Loading) (w : World) (ev : YamlEvent)
      → yaml n ≡ some ev
      → let (ok, ld', w') = next ld.state ev ld w in
        load_loop c e inet_pton yaml (suc fuel) n ld w ≡ (
          if ok && not (is_end ev)
          then load_loop c e inet_pton yaml fuel (suc n) ld' w'
          else some (ok, ld', w'))
  unfolding load_loop
  load_loop-some yaml fuel n ld w ev parsed = rw (parsed, load_loop) refl

  -- The loop returns this, with any fuel above `left`.
  abbrev LoopReturns :
      (ℕ → Option YamlEvent) → ℕ → ℕ → Loading → World → Bool × Loading × World → Type 0
  LoopReturns yaml left n ld w r =
      (fuel : ℕ) → left ≤ fuel → load_loop c e inet_pton yaml (suc fuel) n ld w ≡ some r

  load_loop_ends :
      (yaml : ℕ → Option YamlEvent) (left n k : ℕ) (ld : Loading) (w : World)
      → is_last (yaml k) ≡ true
      → k ≡ n + left
      → (r : Bool × Loading × World) × LoopReturns yaml left n ld w r
  load_loop_ends yaml zero n k ld w last at = elim (Option-cases (yaml n)) [
    | inl broken ↦ ((false, ld, w), λ fuel le. load_loop-none yaml fuel n ld w broken)
    | inr (ev, parsed) ↦
        let here : k ≡ n = omega arith in
        let ends : is_end ev ≡ true =
          ap is_last (sym parsed) ∙ (ap (λ (m : ℕ). is_last (yaml m)) (sym here) ∙ last) in
        (
          next ld.state ev ld w,
          λ fuel le. load_loop-some yaml fuel n ld w ev parsed ∙ ground (arith, ends),
        )
  ]
  load_loop_ends yaml (suc left) n k ld w last at = elim (Option-cases (yaml n)) [
    | inl broken ↦ ((false, ld, w), λ fuel le. load_loop-none yaml fuel n ld w broken)
    | inr (ev, parsed) ↦
        let (ok, ld', w') = next ld.state ev ld w in
        elim (Bool-cases (ok && not (is_end ev))) [
          | inr ends ↦
              ((ok, ld', w'), λ fuel le. load_loop-some yaml fuel n ld w ev parsed ∙ rw ends refl)
          | inl goes_on ↦
              let (r, returns) = load_loop_ends yaml left (suc n) k ld' w' last (omega arith) in
              (
                r,
                λ fuel le.
                    let more : fuel ≡ suc (fuel - 1) = omega arith in
                    load_loop-some yaml fuel n ld w ev parsed
                    ∙ (rw goes_on (rw more (returns (fuel - 1) (omega arith)))),
              )
        ]
  ]

  -- `load_config` ends: where libyaml reports an error or the end of the stream at its call number
  -- k, there is one result, which the function returns with any fuel above k.
  pub load_config_ends :
      (opens initializes : Bool) (yaml : ℕ → Option YamlEvent) (k : ℕ) (w : World)
      → is_last (yaml k) ≡ true
      → (r : Bool × Loading × World) × ((fuel : ℕ)
          → k < fuel
          → load_config c e inet_pton opens initializes yaml fuel w ≡ some r)
  unfolding load_config
  load_config_ends opens initializes yaml k w last = elim (Bool-cases (opens && initializes)) [
    | inr closed ↦ ((false, start_loading, w), λ fuel lt. rw (closed, load_config) refl)
    | inl open_file ↦
        let (r, returns) = load_loop_ends yaml k 0 k start_loading w last (omega arith) in
        (
          r,
          λ fuel lt.
              let more : fuel ≡ suc (fuel - 1) = omega arith in
              rw (open_file, load_config) (rw more (returns (fuel - 1) (omega arith))),
        )
  ]
