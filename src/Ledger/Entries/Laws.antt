-- ===== src/Ledger/Entries/Laws.antt =====
-- The unspent outputs, proposals and pots as maps.
use amaru_wear.Prelude.{
  ℕ, ◌+◌, ◌≡◌, refl, ◌∙◌, Bool, false, Option, none, some, List, [], ◌∷◌, arith, length, ok,
  if◌then◌else◌, ◌>>◌, pure, bind_ok, then_ok,
}
use amaru_wear.Bytes.{Bytes, same_refl, starts_with}
use amaru_wear.RocksDb.{RocksDb, IsLawful, IsReliable, put_ok, delete}
use amaru_wear.Ledger.{
  LedgerKernel, IsLedgerKernel, internal, pots_prefix, proposals_prefix, utxo_prefix, as_key,
  get_row, put_row,
}
use amaru_wear.Ledger.Column.{
  Holds, Holds-same, Makes, updated, kept, get_row_at, get_row_ok, put_row-Makes, delete-Makes,
  steps, for_each-Makes,
}
use amaru_wear.Ledger.Column.Loops.{listed, latest, steps-removed, steps-added}
use amaru_wear.Ledger.Entries.{
  get_pots, put_pots, or_default, add_proposals_from, add_proposals, get_output, add_outputs,
  remove_outputs,
}

module _ (R : RocksDb) (K : LedgerKernel) where
  open R use {Db, content}
  open K use {
    Pots, pots_codec, ProposalId, Proposal, proposal_id_codec, proposal_codec, Input, Output,
    input_codec, output_codec,
  }

  abbrev pub Outputs : Type 0
  Outputs = Input → Option Output

  abbrev pub HoldsOutputs : Outputs → Db → Type 0
  HoldsOutputs m d = Holds R input_codec output_codec utxo_prefix m d

  abbrev pub spent : Input → List Input → Bool
  spent = listed R input_codec output_codec utxo_prefix

  abbrev pub produced : Input → List (Input × Output) → Option Output
  produced = latest R input_codec output_codec utxo_prefix

  abbrev pub Proposals : Type 0
  Proposals = ProposalId → Option Proposal

  abbrev pub HoldsProposals : (ProposalId → Option Proposal) → Db → Type 0
  HoldsProposals m d = Holds R proposal_id_codec proposal_codec proposals_prefix m d

  module _ (sound : IsReliable R) (L : IsLawful R) (N : IsLedgerKernel K) where
    pub add_outputs-Makes :
        (rows : List (Input × Output)) (m : Outputs) (d : Db)
        → HoldsOutputs m d
        → Makes R input_codec output_codec utxo_prefix
            (add_outputs R K rows)
            d
            tt
            (λ c. kept R input_codec output_codec utxo_prefix (produced c rows) (m c))
    unfolding add_outputs
    add_outputs-Makes rows m d h =
        let (d', done, h', frame) =
          for_each-Makes R input_codec output_codec utxo_prefix
            (λ (x : Input × Output) m.
              updated R input_codec output_codec utxo_prefix x.0 (some x.1) m)
            (λ (x : Input × Output).
              put_row R output_codec (as_key input_codec utxo_prefix x.0) x.1)
            (λ x. put_row-Makes R input_codec output_codec utxo_prefix sound L N.outputs x.0 x.1)
            rows m d h in
        (
          d',
          done,
          Holds-same R input_codec output_codec utxo_prefix _ _ d'
              (steps-added R input_codec output_codec utxo_prefix rows m) h',
          frame,
        )

    pub remove_outputs-Makes :
        (rows : List Input) (m : Outputs) (d : Db)
        → HoldsOutputs m d
        → Makes R input_codec output_codec utxo_prefix
            (remove_outputs R K rows)
            d
            tt
            (λ c. if spent c rows then none else m c)
    unfolding remove_outputs
    remove_outputs-Makes rows m d h =
        let (d', done, h', frame) =
          for_each-Makes R input_codec output_codec utxo_prefix
            (λ a m. updated R input_codec output_codec utxo_prefix a none m)
            (λ a. delete R internal (as_key input_codec utxo_prefix a))
            (delete-Makes R input_codec output_codec utxo_prefix sound L N.outputs) rows m d h in
        (
          d',
          done,
          Holds-same R input_codec output_codec utxo_prefix _ _ d'
              (steps-removed R input_codec output_codec utxo_prefix rows m) h',
          frame,
        )

    -- A block's outputs are added and then its inputs removed: an input is then unspent exactly if
    -- it is not among the inputs and was produced, or was there before; its output is the last one
    -- produced. No other column changes.
    pub utxo_lem :
        (outputs : List (Input × Output)) (inputs : List Input) (m : Outputs) (d : Db)
        → HoldsOutputs m d
        → (d' : Db) × ((add_outputs R K outputs >> remove_outputs R K inputs) d ≡ (ok tt, d'))
          × ((i : Input)
              → get_output R K i d' ≡ (
                ok (
                    if spent i inputs
                    then none
                    else kept R input_codec output_codec utxo_prefix (produced i outputs) (m i)),
                d',
              ))
          × ((j : Bytes) → starts_with utxo_prefix j ≡ false → content d' j ≡ content d j)
    unfolding get_output
    utxo_lem outputs inputs m d h =
        let (d₁, added, h₁, frame₁) = add_outputs-Makes outputs m d h in
        let (d₂, removed, h₂, frame₂) = remove_outputs-Makes inputs _ d₁ h₁ in
        (
          d₂,
          then_ok (add_outputs R K outputs) (remove_outputs R K inputs) d added ∙ removed,
          λ i. get_row_ok R input_codec output_codec utxo_prefix sound L N.outputs i _ d₂ h₂,
          λ j other. frame₂ j other ∙ frame₁ j other,
        )

    add_proposals_from-Makes :
        (n : ℕ) (rows : List (ProposalId × Proposal)) (m : ProposalId → Option Proposal) (d : Db)
        → HoldsProposals m d
        → Makes R proposal_id_codec proposal_codec proposals_prefix
            (add_proposals_from R K n rows)
            d
            (n + length rows)
            (steps R proposal_id_codec proposal_codec proposals_prefix
              (λ (x : ProposalId × Proposal) m.
                updated R proposal_id_codec proposal_codec proposals_prefix x.0 (some x.1) m)
              rows
              m)
    unfolding add_proposals_from steps
    add_proposals_from-Makes n [] m d h = (d, ground arith, h, λ j other. refl)
    add_proposals_from-Makes n ((id, proposal) ∷ rows) m d h =
        let (d₁, done, h₁, frame₁) =
          put_row-Makes R proposal_id_codec proposal_codec proposals_prefix sound L N.proposals id
            proposal m d h in
        let (d₂, rest, h₂, frame₂) = add_proposals_from-Makes (n + 1) rows _ d₁ h₁ in
        (
          d₂,
          then_ok (put_row R proposal_codec (as_key proposal_id_codec proposals_prefix id) proposal)
                _ d done
              ∙ rest
              ∙ ground arith,
          h₂,
          λ j other. frame₂ j other ∙ frame₁ j other,
        )

    -- `proposals::add` writes the last row of each listed proposal, returns the number of rows, and
    -- leaves every other proposal and column as it is.
    pub add_proposals_lem :
        (rows : List (ProposalId × Proposal)) (m : ProposalId → Option Proposal) (d : Db)
        → HoldsProposals m d
        → Makes R proposal_id_codec proposal_codec proposals_prefix
            (add_proposals R K rows)
            d
            (length rows)
            (λ c.
              kept R proposal_id_codec proposal_codec proposals_prefix
                (latest R proposal_id_codec proposal_codec proposals_prefix c rows)
                (m c))
    unfolding add_proposals
    add_proposals_lem rows m d h =
        let (d', done, h', frame) = add_proposals_from-Makes 0 rows m d h in
        (
          d',
          done ∙ ground arith,
          Holds-same R proposal_id_codec proposal_codec proposals_prefix _ _ d'
              (steps-added R proposal_id_codec proposal_codec proposals_prefix rows m) h',
          frame,
        )

    -- The pots that are put are the pots that are read; a store without pots has the default ones.
    pub get_pots-put_pots :
        (pots : Pots) (d : Db)
        → ((d' : Db) × (put_pots R K pots d ≡ (ok tt, d')) × (get_pots R K d' ≡ (ok pots, d')))
          × (content d pots_prefix ≡ none → get_pots R K d ≡ (ok K.default_pots, d))
    unfolding get_pots put_pots put_row or_default
    get_pots-put_pots pots d =
        let d' = R.write d pots_prefix (pots_codec.encode pots) in
        let e : content d' pots_prefix ≡ some (pots_codec.encode pots) =
          L.content-write d pots_prefix (pots_codec.encode pots) pots_prefix
          ∙ rw (same_refl pots_prefix) in
        (
          (
            d',
            put_ok R internal sound pots_prefix (pots_codec.encode pots) d,
            bind_ok (get_row R pots_codec pots_prefix) (λ row. pure (or_default R K row)) d'
                (get_row_at R input_codec pots_codec pots_prefix sound L N.pots pots_prefix
                  (some pots) d' e),
          ),
          λ absent.
              bind_ok (get_row R pots_codec pots_prefix) (λ row. pure (or_default R K row)) d
                (get_row_at R input_codec pots_codec pots_prefix sound L N.pots pots_prefix none d
                  absent),
        )
