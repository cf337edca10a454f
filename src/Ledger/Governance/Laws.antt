-- ===== src/Ledger/Governance/Laws.antt =====
-- The single values as they are read back, and the committee after an update.

use amaru_wear.Prelude.{
  ℕ, ◌≡◌, refl, ◌∙◌, false, none, some, arith, ok, err, if◌then◌else◌, ◌>>◌, bind_ok, then_ok,
}
use amaru_wear.Bytes.{Bytes, same}
use amaru_wear.RocksDb.{RocksDb, IsLawful, IsReliable, get, get_ok, put_ok}
use amaru_wear.Ledger.{Codec, IsCodec, LedgerKernel, internal, missing, put_row}
use amaru_wear.Ledger.Governance.{
  GovernanceKernel, IsGovernanceKernel, tip_key, protocol_parameters_key, committee_key,
  constitution_key, proposals_roots_key, governance_activity_key, decode_or_undecodable, get_single,
  or_missing, get_or_bail, tip, protocol_parameters, constitutional_committee, constitution,
  proposals_roots, or_inactive, governance_activity, set_protocol_parameters, set_proposals_roots,
  set_constitution, set_governance_activity,
}

module _ (R : RocksDb) (sound : IsReliable R) where
  open R use {Db, content, write}

  module _ {A : Type 0} (C : Codec A) (N : IsCodec C) where
    pub get_single-none :
        (k : Bytes) (d : Db) → content d k ≡ none → get_single R C k d ≡ (ok none, d)
    unfolding get_single decode_or_undecodable
    get_single-none k d e = bind_ok (get R internal k) _ d (get_ok R internal sound k d) ∙ rw e refl

    pub get_single-some :
        (k : Bytes) (a : A) (d : Db)
        → content d k ≡ some (C.encode a)
        → get_single R C k d ≡ (ok (some a), d)
    unfolding get_single decode_or_undecodable
    get_single-some k a d e =
        bind_ok (get R internal k) _ d (get_ok R internal sound k d)
        ∙ rw e (rw (N a, decode_or_undecodable) refl)

    pub get_or_bail-none :
        (k : Bytes) (d : Db) → content d k ≡ none → get_or_bail R C k d ≡ (err (missing k), d)
    unfolding get_or_bail or_missing
    get_or_bail-none k d e = bind_ok (get_single R C k) _ d (get_single-none k d e)

    pub get_or_bail-some :
        (k : Bytes) (a : A) (d : Db)
        → content d k ≡ some (C.encode a)
        → get_or_bail R C k d ≡ (ok a, d)
    unfolding get_or_bail or_missing
    get_or_bail-some k a d e = bind_ok (get_single R C k) _ d (get_single-some k a d e)

  module _ (K : LedgerKernel) (G : GovernanceKernel K) (N : IsGovernanceKernel G) where
    open G use {
      ProtocolParameters, parameters_codec, Constitution, constitution_codec, ProposalsRoots,
      roots_codec, activity_codec,
    }

    -- A store that has none of the single values fails to read them, with the key in the error, but
    -- has no dormant epochs.
    pub unset_lem :
        (d : Db)
        → ((k : Bytes) → content d k ≡ none)
        → (tip R K G d ≡ (err (missing tip_key), d))
          × (protocol_parameters R K G d ≡ (err (missing protocol_parameters_key), d))
          × (constitutional_committee R K G d ≡ (err (missing committee_key), d))
          × (constitution R K G d ≡ (err (missing constitution_key), d))
          × (proposals_roots R K G d ≡ (err (missing proposals_roots_key), d))
          × (governance_activity R K G d ≡ (ok 0, d))
    unfolding tip protocol_parameters constitutional_committee constitution proposals_roots
        governance_activity or_inactive
    unset_lem d empty = (
      get_or_bail-none G.point_codec N.points tip_key d (empty tip_key),
      get_or_bail-none parameters_codec N.parameters protocol_parameters_key d
          (empty protocol_parameters_key),
      get_or_bail-none G.committee_codec N.committees committee_key d (empty committee_key),
      get_or_bail-none constitution_codec N.constitutions constitution_key d
          (empty constitution_key),
      get_or_bail-none roots_codec N.roots proposals_roots_key d (empty proposals_roots_key),
      bind_ok (get_single R activity_codec governance_activity_key) _ d (
          get_single-none activity_codec N.activities governance_activity_key d
            (empty governance_activity_key)),
    )

    module _ (L : IsLawful R) where
      -- The database after four writes.
      four_writes :
          (k₁ v₁ k₂ v₂ k₃ v₃ k₄ v₄ : Bytes) (d : Db) (j : Bytes)
          → content (write (write (write (write d k₁ v₁) k₂ v₂) k₃ v₃) k₄ v₄) j ≡ (
              if same k₄ j
              then some v₄
              else if same k₃ j
              then some v₃
              else if same k₂ j
              then some v₂
              else if same k₁ j
              then some v₁
              else content d j)
      four_writes k₁ v₁ k₂ v₂ k₃ v₃ k₄ v₄ d j =
          L.content-write (write (write (write d k₁ v₁) k₂ v₂) k₃ v₃) k₄ v₄ j
          ∙ ground (
            arith,
            L.content-write (write (write d k₁ v₁) k₂ v₂) k₃ v₃ j,
            L.content-write (write d k₁ v₁) k₂ v₂ j,
            L.content-write d k₁ v₁ j,
          )

      four_puts :
          {A₁ A₂ A₃ A₄ : Type 0} (C₁ : Codec A₁) (C₂ : Codec A₂) (C₃ : Codec A₃) (C₄ : Codec A₄)
          (k₁ k₂ k₃ k₄ : Bytes) (a₁ : A₁) (a₂ : A₂) (a₃ : A₃) (a₄ : A₄) (d : Db)
          → (put_row R C₁ k₁ a₁ >> put_row R C₂ k₂ a₂ >> put_row R C₃ k₃ a₃ >> put_row R C₄ k₄ a₄) d
            ≡ (
              ok tt,
              write
                  (write (write (write d k₁ (C₁.encode a₁)) k₂ (C₂.encode a₂)) k₃ (C₃.encode a₃))
                  k₄
                  (C₄.encode a₄),
            )
      unfolding put_row
      four_puts C₁ C₂ C₃ C₄ k₁ k₂ k₃ k₄ a₁ a₂ a₃ a₄ d =
          let d₁ = write d k₁ (C₁.encode a₁) in
          let d₂ = write d₁ k₂ (C₂.encode a₂) in
          let d₃ = write d₂ k₃ (C₃.encode a₃) in
          let p₁ = put_row R C₁ k₁ a₁ in
          let p₂ = put_row R C₂ k₂ a₂ in
          let p₃ = put_row R C₃ k₃ a₃ in
          let p₄ = put_row R C₄ k₄ a₄ in
          then_ok (p₁ >> p₂ >> p₃) p₄ d (
            then_ok (p₁ >> p₂) p₃ d (
              then_ok p₁ p₂ d (put_ok R internal sound k₁ (C₁.encode a₁) d)
              ∙ put_ok R internal sound k₂ (C₂.encode a₂) d₁)
            ∙ put_ok R internal sound k₃ (C₃.encode a₃) d₂)
          ∙ put_ok R internal sound k₄ (C₄.encode a₄) d₃

      -- The four settings that are set, one after the other, are the ones that are read, and
      -- nothing else is written.
      pub settings_lem :
          (p : ProtocolParameters) (r : ProposalsRoots) (c : Constitution) (n : ℕ) (d : Db)
          → (d' : Db) × ((set_protocol_parameters R K G p
                  >> set_proposals_roots R K G r
                  >> set_constitution R K G c
                  >> set_governance_activity R K G n)
                d
              ≡ (ok tt, d'))
            × (protocol_parameters R K G d' ≡ (ok p, d'))
            × (proposals_roots R K G d' ≡ (ok r, d'))
            × (constitution R K G d' ≡ (ok c, d'))
            × (governance_activity R K G d' ≡ (ok n, d'))
            × ((j : Bytes)
                → same protocol_parameters_key j ≡ false
                → same proposals_roots_key j ≡ false
                → same constitution_key j ≡ false
                → same governance_activity_key j ≡ false
                → content d' j ≡ content d j)
      unfolding set_protocol_parameters set_proposals_roots set_constitution set_governance_activity
          protocol_parameters proposals_roots constitution governance_activity or_inactive
      settings_lem p r c n d =
          let d₁ = write d protocol_parameters_key (parameters_codec.encode p) in
          let d₂ = write d₁ proposals_roots_key (roots_codec.encode r) in
          let d₃ = write d₂ constitution_key (constitution_codec.encode c) in
          let d₄ = write d₃ governance_activity_key (activity_codec.encode n) in
          let now =
            four_writes protocol_parameters_key (parameters_codec.encode p) proposals_roots_key
              (roots_codec.encode r) constitution_key (constitution_codec.encode c)
              governance_activity_key (activity_codec.encode n) d in
          (
            d₄,
            four_puts parameters_codec roots_codec constitution_codec activity_codec
                protocol_parameters_key proposals_roots_key constitution_key governance_activity_key
                p r c n d,
            get_or_bail-some parameters_codec N.parameters protocol_parameters_key p d₄
                (now protocol_parameters_key ∙ (unfold same in refl)),
            get_or_bail-some roots_codec N.roots proposals_roots_key r d₄
                (now proposals_roots_key ∙ (unfold same in refl)),
            get_or_bail-some constitution_codec N.constitutions constitution_key c d₄
                (now constitution_key ∙ (unfold same in refl)),
            bind_ok (get_single R activity_codec governance_activity_key) _ d₄ (
                get_single-some activity_codec N.activities governance_activity_key n d₄
                  (now governance_activity_key ∙ (unfold same in refl))),
            λ j e₁ e₂ e₃ e₄. now j ∙ rw (e₁, e₂, e₃, e₄) refl,
          )
