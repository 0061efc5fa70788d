-- ===== src/Models/Router/Vote/Quorum.antt =====
-- What a vote that is won shows.
use nova_adapt.Base.{
  ℕ, ◌≤◌, String, ◌≡◌, refl, sym, subst, ◌∙◌, List, [], ◌∷◌, map, arith, All, str_eq, count,
  Bool-cases, inl, inr, ltb, length,
}
use nova_adapt.Base.Exec.{Result, ok, raised}
use nova_adapt.Models.Router.{Router, Endpoint, Reply, answered, refused, Texts, RouterResult}
use nova_adapt.Models.Router.Vote.{
  collect, collected, elected, vote_result, vote_among, vote_on, resolve_all, chat_vote,
  majority_vote,
}
use nova_adapt.Models.Router.Vote.Majority.{majority_wins}

-- How many votes say the same as a text, up to normalization.
abbrev pub support : (String → String) → String → Texts → ℕ
support normalize content votes = count (λ v. str_eq (normalize content) (normalize v.1)) votes

-- The vote is what an endpoint of its name answered.
pub record IsVote (invoke : Endpoint → Reply) (v : String × String) : Type 0 where
  pub endpoint : Endpoint
  pub named : endpoint.name ≡ v.0
  pub said : invoke endpoint ≡ answered v.1

collected-IsVote :
    (r : Router) (invoke : Endpoint → Reply) (e : Endpoint) (reply : Reply) (rest : Texts × Texts)
    → invoke e ≡ reply
    → All (IsVote invoke) rest.0
    → All (IsVote invoke) (collected r e reply rest).0
collected-IsVote r invoke e (answered value) rest said h =
    (record { endpoint = e; named = refl; said = said }, h)
collected-IsVote r invoke e (refused text) rest said h = h

collect-IsVote :
    (r : Router) (invoke : Endpoint → Reply) (es : List Endpoint)
    → All (IsVote invoke) (collect r invoke es).0
unfolding collect
collect-IsVote r invoke [] = tt
collect-IsVote r invoke (e ∷ es) =
    collected-IsVote r invoke e (invoke e) (collect r invoke es) refl (collect-IsVote r invoke es)

count-map :
    (normalize : String → String) (w : String) (votes : Texts)
    → count (str_eq w) (map normalize (map (λ v. v.1) votes))
      ≡ count (λ v. str_eq w (normalize v.1)) votes
count-map normalize w [] = refl
count-map normalize w (v ∷ votes) = ground (arith, count-map normalize w votes)

module _ (r : Router) (normalize : String → String) where
  -- What is known of a result over some votes.
  record Won (votes : Texts) (res : RouterResult) : Type 0 where
    agreed : r.min_vote_agreement ≤ support normalize res.content res.votes
    counted : res.votes ≡ votes

  elected-Won :
      (name : String) (names : List String) (votes errors : Texts) (best : String × ℕ)
      (res : RouterResult)
      → best.1 ≡ support normalize best.0 votes
      → elected r normalize name names votes errors best ≡ ok res
      → Won votes res
  unfolding elected
  elected-Won name names votes errors (chosen, n) res own h =
      elim (Bool-cases (ltb n r.min_vote_agreement)) [
        | inl few ↦ absurd (ground arith)
        | inr enough ↦ record { agreed = ground (arith, own); counted = ground arith }
      ]

  vote_result-Won :
      (name : String) (names : List String) (votes errors : Texts) (res : RouterResult)
      → vote_result r normalize name names (votes, errors) ≡ ok res
      → Won votes res
  unfolding vote_result
  vote_result-Won name names [] errors res h = absurd (ground arith)
  vote_result-Won name names ((voter, output) ∷ votes) errors res h =
      let others = map (λ v. v.1) votes in
      let best = majority_vote normalize output others in
      let votes' = (voter, output) ∷ votes in
      elected-Won name names votes' errors best res
        ((majority_wins normalize output others).0 ∙ count-map normalize (normalize best.0) votes')
        h

  module _ (as_completed : List Endpoint → List Endpoint) (invoke : Endpoint → Reply)
      (res : RouterResult) where
    abbrev Shown : Type 0
    Shown =
        (r.min_vote_agreement ≤ support normalize res.content res.votes)
        × All (IsVote invoke) res.votes

    among-Shown :
        (name : String) (names : List String) (resolved : Result (List Endpoint))
        → vote_among r normalize as_completed invoke name names resolved ≡ ok res
        → Shown
    unfolding vote_among
    among-Shown name names (raised e) h = absurd (ground arith)
    among-Shown name names (ok es) h =
        let done = collect r invoke (as_completed es) in
        let w = vote_result-Won name names done.0 done.1 res h in
        (
          w.agreed,
          subst (All (IsVote invoke)) (sym w.counted) (collect-IsVote r invoke (as_completed es)),
        )

    on-Shown :
        (names : List String) → vote_on r normalize as_completed invoke names ≡ ok res → Shown
    unfolding vote_on
    on-Shown [] h = absurd (ground arith)
    on-Shown (name ∷ names) h =
        elim (Bool-cases (ltb (length (name ∷ names)) r.min_vote_agreement)) [
          | inl few ↦ absurd (ground arith)
          | inr enough ↦ among-Shown name names (resolve_all r (name ∷ names)) (rw enough at h)
        ]

  -- The result of `chat_vote`, if there is one, has at least as many votes that say the same, up to
  -- normalization, as the router's quorum asks for; each vote is what an endpoint of its name answered.
  pub quorum_met :
      (as_completed : List Endpoint → List Endpoint) (invoke : Endpoint → Reply)
      (candidates : List String) (res : RouterResult)
      → chat_vote r normalize as_completed invoke candidates ≡ ok res
      → (r.min_vote_agreement ≤ support normalize res.content res.votes)
        × All (IsVote invoke) res.votes
  unfolding chat_vote
  quorum_met as_completed invoke [] res h = on-Shown as_completed invoke res _ h
  quorum_met as_completed invoke (c ∷ candidates) res h = on-Shown as_completed invoke res _ h
