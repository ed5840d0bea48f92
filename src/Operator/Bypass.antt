-- ===== src/Operator/Bypass.antt =====
-- The bypass of the loss limit, from the operator's call to the engine that refreshes.
use pretrade_risk_controls.Common.{
  ℕ, Bool, All, str_eq_iff, String, ◌≡◌, ◌↔◌, ◌⊎◌, refl, ◌∙◌, ap, true, false, some, ℤ, pos, ◌+ℤ◌,
  ◌≤ℤ◌, ◌<ℤ◌, ltb_ℤ, arith,
}
use pretrade_risk_controls.Common.Dict.{lookup, IsDict}
use pretrade_risk_controls.Float.{Float, IsBinary64, IsExact}
use pretrade_risk_controls.Python.{IsStrip, Python, ok, value_error}
use pretrade_risk_controls.Encoding.{codes, encode_bool, encode_float, decode_float, decode_bool}
use pretrade_risk_controls.Encoding.Printf.{IsRoundTrip}
use pretrade_risk_controls.Encoding.RoundTrip.{decode_float-encode_float, decode_bool-encode_bool}
use pretrade_risk_controls.Keys
use pretrade_risk_controls.Store.{raw_get-get_many, StateStore, IsStore}
use pretrade_risk_controls.Engine.State.{Engine}
use pretrade_risk_controls.Engine.Derived.{bypass_active}
use pretrade_risk_controls.Engine.Lifecycle.{refresh_overrides}
use pretrade_risk_controls.Operator.{
  active_at, read_loss_limit_bypass, bypass_loss_limit, bypass_entries, clear_loss_limit_bypass,
  clear_entries, is_blank, max_bypass_duration_millis,
}

module _ {F S : Type 0} ⦃fl : Float F⦄ ⦃py : Python⦄ ⦃st : StateStore S⦄ (laws : IsBinary64 F)
    (codec : IsRoundTrip F) (store : IsStore S) where
  open store use {get-set_many}

  -- What the engine caches of the bypass is what the two keys hold.
  refreshed-flag :
      (e : Engine F) (s : S)
      → (refresh_overrides e s).bypass_loss_limit ≡ decode_bool (st.get s Keys.loss_limit_bypass)
  unfolding refresh_overrides
  refreshed-flag e s = ap decode_bool (raw_get-get_many store s _ Keys.loss_limit_bypass refl)

  refreshed-expiry :
      (e : Engine F) (s : S)
      → (refresh_overrides e s).bypass_expires_at
        ≡ decode_float (st.get s Keys.loss_limit_bypass_expires_at)
  unfolding refresh_overrides
  refreshed-expiry e s =
      ap decode_float (raw_get-get_many store s _ Keys.loss_limit_bypass_expires_at refl)

  read-flag :
      (s : S)
      → (read_loss_limit_bypass {F = F} s).enabled ≡ decode_bool (st.get s Keys.loss_limit_bypass)
  unfolding read_loss_limit_bypass
  read-flag s = ap decode_bool (raw_get-get_many store s _ Keys.loss_limit_bypass refl)

  read-expiry :
      (s : S)
      → (read_loss_limit_bypass {F = F} s).expires_at_millis
        ≡ decode_float (st.get s Keys.loss_limit_bypass_expires_at)
  unfolding read_loss_limit_bypass
  read-expiry s =
      ap decode_float (raw_get-get_many store s _ Keys.loss_limit_bypass_expires_at refl)

  -- What the operator reads of the bypass is what the engine acts on: at every instant the record
  -- says that the bypass is active exactly if an engine that refreshes from the same store treats the
  -- loss limit as suspended.
  pub active_at-read_loss_limit_bypass :
      (e : Engine F) (s : S) (t : ℤ)
      → active_at (read_loss_limit_bypass {F = F} s) t ≡ bypass_active (refresh_overrides e s) t
  unfolding active_at bypass_active
  active_at-read_loss_limit_bypass e s t =
      rw (read-expiry s, read-flag s, refreshed-flag e s, refreshed-expiry e s) refl

  bypass_entries-IsDict :
      (now expiry : ℤ) (actor reason : String) → IsDict (bypass_entries F now expiry actor reason)
  unfolding bypass_entries lookup
  bypass_entries-IsDict now expiry actor reason = (refl, (refl, (refl, (refl, (refl, tt)))))

  bypassed-flag :
      (s : S) (now expiry : ℤ) (actor reason : String)
      → st.get (st.set_many s (bypass_entries F now expiry actor reason)) Keys.loss_limit_bypass
        ≡ some (encode_bool true)
  unfolding bypass_entries lookup
  bypassed-flag s now expiry actor reason =
      get-set_many s _ Keys.loss_limit_bypass (bypass_entries-IsDict now expiry actor reason)

  bypassed-expiry :
      (s : S) (now expiry : ℤ) (actor reason : String)
      → st.get
          (st.set_many s (bypass_entries F now expiry actor reason))
          Keys.loss_limit_bypass_expires_at
        ≡ some (encode_float (fl.of_int expiry))
  unfolding bypass_entries lookup
  bypassed-expiry s now expiry actor reason =
      get-set_many s _ Keys.loss_limit_bypass_expires_at
        (bypass_entries-IsDict now expiry actor reason)

  -- The flag and the expiry of a stored bypass, as an engine sees them after a refresh.
  refreshed-active :
      (e : Engine F) (s : S) (now expiry : ℤ) (actor reason : String) (t : ℤ)
      → IsExact expiry
      → bypass_active
          (refresh_overrides e (st.set_many s (bypass_entries F now expiry actor reason)))
          t
        ≡ ltb_ℤ t expiry
  unfolding bypass_active
  refreshed-active e s now expiry actor reason t exact =
      let s' = st.set_many s (bypass_entries F now expiry actor reason) in
      let flag : (refresh_overrides e s').bypass_loss_limit ≡ true =
        refreshed-flag e s'
        ∙ ap decode_bool (bypassed-flag s now expiry actor reason)
        ∙ decode_bool-encode_bool true in
      let until : (refresh_overrides e s').bypass_expires_at ≡ some (fl.of_int expiry) =
        refreshed-expiry e s'
        ∙ ap decode_float (bypassed-expiry s now expiry actor reason)
        ∙ decode_float-encode_float codec (fl.of_int expiry) (laws.of_int-is_finite expiry exact) in
      ground (arith, laws.int_lt-of_int t expiry exact)

  -- If the operator's bypass goes through, its duration was positive and at most a day, it reports
  -- the expiry `now + duration`, and an engine that refreshes from the store treats the loss limit
  -- as suspended exactly before that instant. The expiry must be an integer that binary64 holds
  -- exactly.
  pub bypass_loss_limit-refresh :
      (e : Engine F) (s : S) (duration : ℤ) (actor reason : String) (now : ℤ) (s' : S) (expiry : ℤ)
      → bypass_loss_limit F s duration actor reason now ≡ ok (s', expiry)
      → IsExact expiry
      → (pos 1 ≤ℤ duration)
        × (duration ≤ℤ pos max_bypass_duration_millis)
        × (expiry ≡ now +ℤ duration)
        × ((t : ℤ) → bypass_active (refresh_overrides e s') t ≡ ltb_ℤ t expiry)
  unfolding bypass_loss_limit
  bypass_loss_limit-refresh e s duration actor reason now s' expiry h exact = (
    ground arith,
    ground arith,
    ground arith,
    λ t. ground (arith, refreshed-active e s now expiry actor reason t exact),
  )

  clear_entries-IsDict : (now : ℤ) (actor : String) → IsDict (clear_entries F now actor)
  unfolding clear_entries lookup
  clear_entries-IsDict now actor = (refl, (refl, (refl, (refl, (refl, tt)))))

  cleared-flag :
      (s : S) (now : ℤ) (actor : String)
      → st.get (st.set_many s (clear_entries F now actor)) Keys.loss_limit_bypass
        ≡ some (encode_bool false)
  unfolding clear_entries lookup
  cleared-flag s now actor =
      get-set_many s _ Keys.loss_limit_bypass (clear_entries-IsDict now actor)

  -- After the operator has cleared the bypass, an engine that refreshes treats the loss limit as
  -- armed at every instant, whatever was stored before.
  pub clear_loss_limit_bypass-refresh :
      (e : Engine F) (s : S) (actor : String) (now : ℤ) (s' : S)
      → clear_loss_limit_bypass F s actor now ≡ ok s'
      → (t : ℤ) → bypass_active (refresh_overrides e s') t ≡ false
  unfolding clear_loss_limit_bypass bypass_active
  clear_loss_limit_bypass-refresh e s actor now s' h t =
      let flag : (refresh_overrides e (st.set_many s (clear_entries F now actor))).bypass_loss_limit
          ≡ false =
        refreshed-flag e _
        ∙ ap decode_bool (cleared-flag s now actor)
        ∙ decode_bool-encode_bool false in
      ground arith

-- A text of whitespace only, or of nothing.
abbrev pub IsWhitespace : (ℕ → Bool) → String → Type 0
IsWhitespace is_space text = All (λ c. is_space c ≡ true) (codes text)

module _ {is_space : ℕ → Bool} ⦃py : Python⦄ (strips : IsStrip is_space py) where
  is_blank_iff : (text : String) → (is_blank text ≡ true) ↔ IsWhitespace is_space text
  is_blank_iff text = (
    λ h. (strips text).0 ((str_eq_iff (py.strip text) "").0 h),
    λ h. (str_eq_iff (py.strip text) "").1 ((strips text).1 h),
  )

module _ (F : Type 0) {S : Type 0} ⦃fl : Float F⦄ ⦃py : Python⦄ ⦃st : StateStore S⦄
    (is_space : ℕ → Bool) (strips : IsStrip is_space py) where
  -- The operator's bypass is refused exactly if its duration is not positive or longer than a day,
  -- 86,400,000 milliseconds, or the actor or the reason has no character but whitespace; and clearing
  -- it is refused exactly for such an actor. Which characters are whitespace, `strip` decides.
  pub bypass_loss_limit-refused_iff :
      (s : S) (duration : ℤ) (actor reason : String) (now : ℤ)
      → ((bypass_loss_limit F s duration actor reason now ≡ value_error) ↔ (
          (duration ≤ℤ pos 0)
          ⊎ (pos 86_400_000 <ℤ duration)
          ⊎ IsWhitespace is_space actor
          ⊎ IsWhitespace is_space reason))
        × ((clear_loss_limit_bypass F s actor now ≡ value_error) ↔ IsWhitespace is_space actor)
  unfolding bypass_loss_limit clear_loss_limit_bypass
  bypass_loss_limit-refused_iff s duration actor reason now =
      let by_actor = is_blank_iff strips actor in
      let by_reason = is_blank_iff strips reason in
      (
        (ground (arith, by_actor.0, by_reason.0), ground (arith, by_actor.1, by_reason.1)),
        (ground (arith, by_actor.0), ground (arith, by_actor.1)),
      )
