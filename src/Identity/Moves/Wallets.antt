-- ===== src/Identity/Moves/Wallets.antt =====
-- The calls of the wallet service change a user by a move.
use mathlib.Core.Path.{subst}
use kalam_network.Prelude.{
  ◌+◌, ◌≡◌, refl, sym, ap, ◌∙◌, Text, is_present, Bool, true, false, ◌&&◌, not, none, some, arith,
  inl, inr, Bool-cases, Option-cases,
}
use kalam_network.Exec.{Result, ok, err, after, continue, ◌>>=◌}
use kalam_network.Identity.{
  Identity, draw_or, Vault, Topics, custody_api, IdentityError, Person, IdentityState, IdentityEnv,
  update_person, find_person, person_or_throw, create_user_topics,
}
use kalam_network.Identity.Wallet.{
  create_wallet, via_custody, create_via_tamam, store_wallet, provide_account, fund,
  fund_with_tmusd, with_wallet, ensure_encryption_key, generate_key, store_key_backup,
}
use kalam_network.Identity.Acts.{nobody-Acts, update_person-Acts, Acts-Acts, KeepsId}
use kalam_network.Identity.Acts.Onboards.{LeavesUsers, draw_or_frame, topics_frame, Writes}
use kalam_network.Identity.Moves.{
  wallet_call, key_call, backup_call, standing, Moves, stays, opens, IsMove, Does,
}

-- The columns of a new wallet.
abbrev IsWallet : (Person → Person) → Type 0
IsWallet f =
    (a : Text) × ((vault : Vault) × ((topics : Topics) × ((key : Text) × (f
            ≡ with_wallet a vault topics key))))

with_wallet-KeepsId :
    (a : Text) (vault : Vault) (topics : Topics) (key : Text)
    → KeepsId (with_wallet a vault topics key)
unfolding with_wallet
with_wallet-KeepsId a vault topics key p = refl

module _ (env : IdentityEnv) (k : Text) where
  account_frame : (vault : Vault) → LeavesUsers (provide_account env vault)
  unfolding provide_account fund
  account_frame vault s = elim (Bool-cases (is_present vault.vault_account)) [
    | inl t ↦ ground arith
    | inr f ↦ ground arith
  ]

  grant_frame : (a : Text) (s : IdentityState) → (fund_with_tmusd env a s).persons ≡ s.persons
  unfolding fund_with_tmusd
  grant_frame a s = ground arith

  store_wallet-Writes :
      (vault : Vault) (a : Text) (topics : Topics) (s : IdentityState)
      → Writes k IsWallet s (after (store_wallet env k vault a topics) s)
  unfolding store_wallet update_person
  store_wallet-Writes vault a topics s =
      let f = with_wallet a vault topics (env.box_public_key s.readings) in
      inr (
        f,
        (
          (a, (vault, (topics, (env.box_public_key s.readings, refl)))),
          update_person-Acts k f s _
              (with_wallet-KeepsId a vault topics (env.box_public_key s.readings))
              (grant_frame a (update_person k f (record s { readings = s.readings + 1 }))),
        ),
      )

  -- What follows a call that leaves the users alone.
  then-Writes :
      {A B : Type 0} (next : A → Identity B) (s : IdentityState)
      → ((a : A) (s' : IdentityState) → Writes k IsWallet s' (after (next a) s'))
      → (p : Result IdentityError A × IdentityState) → p.1.persons ≡ s.persons
      → Writes k IsWallet s (continue p.0 next p.1).1
  then-Writes next s writes (err e, s') same = inl same
  then-Writes next s writes (ok a, s') same = since _ (writes a s')
    where
      since : (s'' : IdentityState) → Writes k IsWallet s' s'' → Writes k IsWallet s s''
      since s'' (inl still) = inl (still ∙ same)
      since s'' (inr (f, (is, acts))) =
          inr (f, (is, Acts-Acts k (λ p. p) f s s' s'' (nobody-Acts k s s' same) acts))

  create_via_tamam-Writes :
      (s : IdentityState) → Writes k IsWallet s (after (create_via_tamam env k) s)
  unfolding create_via_tamam
  create_via_tamam-Writes s =
      then-Writes
        (λ vault. provide_account env vault >>= λ a.
          create_user_topics env >>= λ topics. store_wallet env k vault a topics)
        s
        (λ vault s1.
          then-Writes (λ a. create_user_topics env >>= λ topics. store_wallet env k vault a topics)
            s1
            (λ a s2.
              then-Writes (λ topics. store_wallet env k vault a topics) s2
                (λ topics s3. store_wallet-Writes vault a topics s3) (create_user_topics env s2)
                (topics_frame env s2))
            (provide_account env vault s1) (account_frame vault s1))
        (draw_or env.create_vault custody_api s) (draw_or_frame env.create_vault custody_api s)

  passed :
      (s : IdentityState) (user : Person)
      → find_person k s ≡ some user
      → is_present user.hedera_account_id ≡ false
      → env.custody_configured ≡ true
      → create_wallet env k s ≡ via_custody env k s
  unfolding create_wallet person_or_throw
  passed s user n f t = ground arith

  wallet-IsMove :
      (s : IdentityState) (user : Person) (f : Person → Person)
      → find_person k s ≡ some user
      → is_present user.hedera_account_id ≡ false
      → env.custody_configured ≡ true
      → IsWallet f
      → IsMove env (wallet_call k) k s f
  unfolding with_wallet
  wallet-IsMove s user f n absent t (a, (vault, (topics, (key, e)))) p here =
      subst (λ (g : Person → Person). Moves env k (wallet_call k) (standing p) (standing (g p)))
        (sym e) (opens a (ground arith) t)

  via_custody-Does :
      (s : IdentityState) (user : Person)
      → find_person k s ≡ some user
      → is_present user.hedera_account_id ≡ false
      → env.custody_configured ≡ true
      → Does env (wallet_call k) s (after (via_custody env k) s)
  unfolding via_custody
  via_custody-Does s user n f t = by_writing (create_via_tamam-Writes s)
    where
      by_writing :
          Writes k IsWallet s (after (create_via_tamam env k) s)
          → Does env (wallet_call k) s (after (create_via_tamam env k) s)
      by_writing (inl same) = inl same
      by_writing (inr (g, (is, acts))) = inr (k, (g, (wallet-IsMove s user g n f t is, acts)))

  pub create_wallet-Does :
      (s : IdentityState) → Does env (wallet_call k) s (after (create_wallet env k) s)
  unfolding create_wallet person_or_throw via_custody
  create_wallet-Does s = elim (Option-cases (find_person k s)) [
    | inl n ↦ inl (ground arith)
    | inr (user, n) ↦ elim (Bool-cases (is_present user.hedera_account_id)) [
      | inl t ↦ inl (ground arith)
      | inr f ↦ elim (Bool-cases env.custody_configured) [
        | inr u ↦ inl (ground arith)
        | inl t ↦
            subst (Does env (wallet_call k) s) (ap (λ q. q.1) (sym (passed s user n f t)))
              (via_custody-Does s user n f t)
      ]
    ]
  ]

  pub ensure_encryption_key-Does :
      (force : Bool) (s : IdentityState)
      → Does env (key_call k force) s (after (ensure_encryption_key env k force) s)
  unfolding ensure_encryption_key person_or_throw generate_key update_person
  ensure_encryption_key-Does force s = elim (Option-cases (find_person k s)) [
    | inl n ↦ inl (ground arith)
    | inr (user, n) ↦ elim (Bool-cases (is_present user.encryption_public_key && not force)) [
      | inl t ↦ inl (ground arith)
      | inr f ↦
          let key = env.box_public_key s.readings in
          let g : Person → Person =
            λ p. record p { encryption_public_key = some key; key_backup = none } in
          inr (k, (g, ((λ p here. stays), update_person-Acts k g s _ (λ p. refl) (ground arith))))
    ]
  ]

  pub store_key_backup-Does :
      (blob : Text) (s : IdentityState)
      → Does env (backup_call k blob) s (after (store_key_backup k blob) s)
  unfolding store_key_backup person_or_throw update_person
  store_key_backup-Does blob s = elim (Option-cases (find_person k s)) [
    | inl n ↦ inl (ground arith)
    | inr (user, n) ↦
        let g : Person → Person = λ p. record p { key_backup = some blob } in
        inr (k, (g, ((λ p here. stays), update_person-Acts k g s _ (λ p. refl) (ground arith))))
  ]
