-- ===== src/Identity/Poll/Laws.antt =====
-- What the loop over PollAuthSessionStatus returns, and when.
use go_steam.Base.{
  ℕ, zero, suc, ◌<◌, ◌+◌, ◌-◌, Bool, true, false, empty-cases, length-empty, length-nonempty, [],
  ◌≡◌, ◌≢◌, sym, ◌∙◌, ap, ◌↔◌, ◌⊎◌, inl, inr, refl, arith,
}
use go_steam.Base.Results.{Result, ok, err}
use go_steam.Base.Effects.{Call, and_then, and_then_inv, and_then_ok, and_then_cong, ◌>>=◌}
use go_steam.Api.Params.{PollResponse}
use go_steam.Api.Transport.{Transport}
use go_steam.Api.Services.{Decoders}
use go_steam.Identity.Session.{AuthSession, IdentityError, polls_exhausted, Outside}
use go_steam.Identity.Poll.{unless_done, poll, after_poll, poll_loop}

unless_done_inv :
    {W : Type 0} (r : Bool × W) (x : Unit {0}) (w : W) → unless_done r ≡ (ok x, w) → r ≡ (false, w)
unfolding unless_done
unless_done_inv (true, v) x w h = cc
unless_done_inv (false, v) x w h = cc

unless_done-false :
    {W : Type 0} (r : Bool × W) (w : W) → r ≡ (false, w) → unless_done r ≡ (ok tt, w)
unfolding unless_done
unless_done-false r w h = rw h

module _ {W Modulus : Type 0} (transport : Transport W) (decoders : Decoders)
    (outside : Outside W Modulus) (session : AuthSession) where
  open outside use {done, wait}

  -- The status that a poll from `w` gives while the context is not done.
  abbrev pub Polled : W → PollResponse → W → Type 0
  Polled w status w' =
      (w1 : W) × (done w ≡ (false, w1))
      × (poll transport decoders outside session w1 ≡ (ok status, w'))

  -- Rounds that each found no refresh token and waited for the whole interval.
  pub data Pending : ℕ → W → W → Type 0 where
    here : {w : W} → Pending zero w w
    round :
        {n : ℕ} {w w1 w2 w' : W} (status : PollResponse)
        → Polled w status w1
        → status.refresh_token ≡ []
        → wait session.interval w1 ≡ (false, w2)
        → Pending n w2 w'
        → Pending (suc n) w w'

  after_poll-issued :
      (rest : Call IdentityError W PollResponse) (status : PollResponse) (w : W)
      → status.refresh_token ≢ []
      → after_poll transport decoders outside session rest status w ≡ (ok status, w)
  unfolding after_poll
  after_poll-issued rest status w h = rw (length-nonempty _ h)

  after_poll-pending :
      (rest : Call IdentityError W PollResponse) (status : PollResponse) (w w' : W)
      → status.refresh_token ≡ []
      → wait session.interval w ≡ (false, w')
      → after_poll transport decoders outside session rest status w ≡ rest w'
  unfolding after_poll
  after_poll-pending rest status w w' h g =
      rw (length-empty _ h, unless_done-false _ w' g, and_then_ok tt w' (λ _. rest))

  after_poll_inv :
      (rest : Call IdentityError W PollResponse) (status final : PollResponse) (w w' : W)
      → after_poll transport decoders outside session rest status w ≡ (ok final, w')
      → ((status.refresh_token ≢ []) × (status ≡ final) × (w ≡ w'))
        ⊎ ((status.refresh_token ≡ [])
            × (v : W) × (wait session.interval w ≡ (false, v))
            × (rest v ≡ (ok final, w')))
  unfolding after_poll
  after_poll_inv rest status final w w' h = elim (empty-cases status.refresh_token) [
    | inl (empty, t) ↦
        let waited : and_then (unless_done (wait session.interval w)) (λ _. rest) ≡ (ok final, w') =
          sym (rw t) ∙ h in
        let (x, v, w_eq, finished) = and_then_inv _ (λ _. rest) final w' waited in
        inr (empty, v, unless_done_inv _ x v w_eq, finished)
    | inr (full, t) ↦
        let same : Path (Result IdentityError PollResponse × W) (ok status, w) (ok final, w') =
          sym (rw t) ∙ h in
        inl (full, cc, cc)
  ]

  poll_loop-Polled :
      (n : ℕ) (status : PollResponse) (w w' : W)
      → Polled w status w'
      → poll_loop transport decoders outside session (suc n) w
        ≡ after_poll transport decoders outside session
            (poll_loop transport decoders outside session n)
            status
            w'
  unfolding poll_loop
  poll_loop-Polled n status w w' (w1, going, polled) = rw (
    unless_done-false _ w1 going,
    and_then_ok tt w1 (λ _.
        poll transport decoders outside session
        >>= after_poll transport decoders outside session
            (poll_loop transport decoders outside session n)),
    polled,
    and_then_ok status w' (
        after_poll transport decoders outside session
          (poll_loop transport decoders outside session n)),
  )

  -- A run of the loop that succeeds took some rounds that found no token, and then one that did.
  abbrev pub Issued : ℕ → W → PollResponse → W → Type 0
  Issued n w status w' = (v : W) × Pending n w v × Polled v status w' × (status.refresh_token ≢ [])

  abbrev loop : ℕ → Call IdentityError W PollResponse
  loop = poll_loop transport decoders outside session

  poll_loop-Pending : {n : ℕ} {w v : W} (m : ℕ) → Pending n w v → loop (n + m) w ≡ loop m v
  poll_loop-Pending {w = w} m here = ap (λ k. loop k w) (omega arith)
  poll_loop-Pending {n = suc n} {w = w} m
        (round {w1 = w1} {w2 = w2} status polled empty waited rest) =
      ap (λ k. loop k w) (omega arith)
      ∙ poll_loop-Polled (n + m) status w w1 polled
      ∙ after_poll-pending (loop (n + m)) status w1 w2 empty waited
      ∙ poll_loop-Pending m rest

  poll_loop-Issued :
      (n m : ℕ) (w w' : W) (status : PollResponse)
      → Issued n w status w'
      → loop (n + suc m) w ≡ (ok status, w')
  poll_loop-Issued n m w w' status (v, pending, polled, full) =
      poll_loop-Pending (suc m) pending
      ∙ poll_loop-Polled m status v w' polled
      ∙ after_poll-issued (loop m) status w' full

  poll_loop_inv :
      (fuel : ℕ) (w w' : W) (status : PollResponse)
      → loop fuel w ≡ (ok status, w')
      → (n : ℕ) × (n < fuel) × Issued n w status w'
  unfolding poll_loop
  poll_loop_inv zero w w' status h = cc
  poll_loop_inv (suc fuel) w w' status h =
      let (x, w1, going, h1) = and_then_inv _ _ status w' h in
      let going' = unless_done_inv _ x w1 going in
      let (st, w2, polled, h2) = and_then_inv _ _ status w' h1 in
      elim (after_poll_inv (loop fuel) st status w2 w' h2) [
        | inl (full, same, there) ↦ (
          0,
          ground arith,
          (w, here, (w1, going', rw (sym same, sym there) polled), rw (sym same) full),
        )
        | inr (empty, v, waited, h3) ↦
            let (n, less, (u, pending, found, token)) = poll_loop_inv fuel v w' status h3 in
            (
              suc n,
              ground arith,
              (u, round st (w1, going', polled) empty waited pending, found, token),
            )
      ]

  -- With `fuel` rounds, the loop returns a status exactly if that is the status of a poll that found
  -- a refresh token, after fewer than `fuel` rounds that each found none and waited for the interval,
  -- while the context was not done.
  pub poll_loop_iff :
      (fuel : ℕ) (w w' : W) (status : PollResponse)
      → (poll_loop transport decoders outside session fuel w ≡ (ok status, w'))
        ↔ ((n : ℕ) × (n < fuel) × Issued n w status w')
  poll_loop_iff fuel w w' status = (
    poll_loop_inv fuel w w' status,
    λ (n, less, issued).
        let enough : fuel ≡ n + suc (fuel - suc n) = omega arith in
        ap (λ k. loop k w) enough ∙ poll_loop-Issued n (fuel - suc n) w w' status issued,
  )

  -- A run of the loop that did not use up its rounds.
  abbrev pub IsOver : Result IdentityError PollResponse × W → Type 0
  IsOver r = (v : W) → r ≢ (err polls_exhausted, v)

  after_poll_cong :
      (f g : Call IdentityError W PollResponse) (status : PollResponse) (w : W)
      → ((v : W) → IsOver (f v) → f v ≡ g v)
      → IsOver (after_poll transport decoders outside session f status w)
      → after_poll transport decoders outside session f status w
        ≡ after_poll transport decoders outside session g status w
  unfolding after_poll
  after_poll_cong f g status w h over = elim (empty-cases status.refresh_token) [
    | inl (empty, t) ↦ rw (t) (
        and_then_cong (unless_done (wait session.interval w)) (λ _. f) (λ _. g)
          (λ _ v waited. h v (λ u e. over u (rw (t, waited, and_then_ok tt v (λ _. f)) e))))
    | inr (full, t) ↦ rw (t) refl
  ]

  -- A run of the loop that is over returns the same with any more rounds.
  pub poll_loop_stable :
      (fuel more : ℕ) (w : W)
      → IsOver (poll_loop transport decoders outside session fuel w)
      → poll_loop transport decoders outside session (fuel + more) w
        ≡ poll_loop transport decoders outside session fuel w
  unfolding poll_loop
  poll_loop_stable zero more w over = absurd (over w refl)
  poll_loop_stable (suc fuel) more w over =
      let order : suc fuel + more ≡ suc (fuel + more) = omega arith in
      ap (λ k. loop k w) order
      ∙ and_then_cong (unless_done (done w)) _ _ (λ _ v going.
        and_then_cong (poll transport decoders outside session v) _ _ (λ status u polled. sym (
          after_poll_cong (loop fuel) (loop (fuel + more)) status u
            (λ x o. sym (poll_loop_stable fuel more x o))
            (λ x e. over x (
              rw
                (
                  going,
                  and_then_ok tt v (λ _.
                      poll transport decoders outside session
                      >>= after_poll transport decoders outside session (loop fuel)),
                  polled,
                  and_then_ok status u (after_poll transport decoders outside session (loop fuel)),
                )
                e)))))
