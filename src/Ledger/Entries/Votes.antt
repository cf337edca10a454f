-- ===== src/Ledger/Entries/Votes.antt =====
-- The votes and the issuers of the slots as maps.
use amaru_wear.Prelude.{refl, ◌∙◌, Option, some, List, [], ◌∷◌, then_ok}
use amaru_wear.RocksDb.{RocksDb, IsLawful, IsReliable}
use amaru_wear.Ledger.{LedgerKernel, IsLedgerKernel, StakeCredential, votes_prefix, as_key, put_row}
use amaru_wear.Ledger.Column.{Holds, Makes, updated, put_row-Makes, steps}
use amaru_wear.Ledger.Entries.{voting_drep, insert_optional, add_votes_from, add_votes}

module _ (R : RocksDb) (K : LedgerKernel) where
  open R use {Db}
  open K use {Ballot, Vote, voter, ballot_codec, vote_codec}

  abbrev pub Votes : Type 0
  Votes = Ballot → Option Vote

  abbrev pub HoldsVotes : Votes → Db → Type 0
  HoldsVotes m d = Holds R ballot_codec vote_codec votes_prefix m d

  -- The dreps that have voted, the last one first.
  unfoldable pub voters : List StakeCredential → List (Ballot × Vote) → List StakeCredential
  voters dreps [] = dreps
  voters dreps ((ballot, vote) ∷ rows) =
      voters (insert_optional R K (voting_drep R K (voter ballot)) dreps) rows

  abbrev pub votes_added : List (Ballot × Vote) → Votes → Votes
  votes_added =
      steps R ballot_codec vote_codec votes_prefix
        (λ (x : Ballot × Vote) m. updated R ballot_codec vote_codec votes_prefix x.0 (some x.1) m)

  module _ (sound : IsReliable R) (L : IsLawful R) (N : IsLedgerKernel K) where
    add_votes_from_made :
        (dreps : List StakeCredential) (rows : List (Ballot × Vote)) (m : Votes) (d : Db)
        → HoldsVotes m d
        → Makes R ballot_codec vote_codec votes_prefix
            (add_votes_from R K dreps rows)
            d
            (voters dreps rows)
            (votes_added rows m)
    unfolding add_votes_from steps voters
    add_votes_from_made dreps [] m d h = (d, refl, h, λ j other. refl)
    add_votes_from_made dreps ((ballot, vote) ∷ rows) m d h =
        let (d₁, done, h₁, frame₁) =
          put_row-Makes R ballot_codec vote_codec votes_prefix sound L N.votes ballot vote m d h in
        let (d₂, rest, h₂, frame₂) =
          add_votes_from_made (insert_optional R K (voting_drep R K (voter ballot)) dreps) rows _ d₁
            h₁ in
        (
          d₂,
          then_ok (put_row R vote_codec (as_key ballot_codec votes_prefix ballot) vote) _ d done
              ∙ rest,
          h₂,
          λ j other. frame₂ j other ∙ frame₁ j other,
        )

    -- `votes::add` records the votes and returns the dreps among the voters.
    pub add_votes_made :
        (rows : List (Ballot × Vote)) (m : Votes) (d : Db)
        → HoldsVotes m d
        → Makes R ballot_codec vote_codec votes_prefix
            (add_votes R K rows)
            d
            (voters [] rows)
            (votes_added rows m)
    unfolding add_votes
    add_votes_made rows m d h = add_votes_from_made [] rows m d h
