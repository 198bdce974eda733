-- ===== src/Http/Fetch/Whole.antt =====
-- The response as a whole, and that the loops of `fetchBytes` over any byte stream read it.
use simple_socket.Connection.Rounds.{read-cases}
use simple_socket.Connection.{Reader, IsStream}
use simple_socket.Http.Chunks.Ends.{before}
use simple_socket.Http.Chunks.Reference.{unchunk}
use simple_socket.Http.Chunks.Whole.{decode_chunked-unchunk}
use simple_socket.Http.Fetch.{is_chunked, read_up_to, read_to_end, read_body, read_response}
use simple_socket.Http.Headers.{parse_headers}
use simple_socket.Prelude.{
  ℕ, zero, suc, ◌+◌, ◌-◌, ◌^◌, ◌≤◌, ◌<◌, ◌≡◌, inl, inr, refl, sym, ap, ◌∙◌, min, false, Option,
  none, some, List, [], ◌∷◌, ◌++◌, append_assoc, append-nil, if◌then◌else◌, ltb, length, take, drop,
  Outcome, ok, throw, fault, length-append, length-drop, drop-append_short, take-append_short,
  take-append_left, Bool-cases, Option-cases, ltb→lt, arith,
}
use simple_socket.Text.Numbers.{stoul}
use simple_socket.Text.Search.{find-append, find-fits}
use simple_socket.Text.{Map, find, codes, blank_line}

-- The body that all bytes after the headers make.
unfoldable pub whole_body : Map (List ℕ) → List ℕ → Outcome (Option (List ℕ))
unfolding is_chunked unchunk
whole_body headers bytes =
    if is_chunked headers
    then unchunk (suc (length bytes)) 0 bytes
    else elim (headers (codes "content-length")) [
      | none ↦ ok (some bytes)
      | some value ↦ elim (stoul 10 value) [
        | none ↦ ok none
        | some want ↦ ok (if ltb (length bytes) want then none else some (take want bytes))
      ]
    ]

unfoldable pub whole_response : List ℕ → Outcome (Option (List ℕ))
unfolding whole_body
whole_response bytes = elim (find blank_line bytes) [
  | none ↦ ok none
  | some sep ↦ whole_body (parse_headers (take sep bytes)) (drop (sep + 4) bytes)
]

module _ {S : Type 0} {c : Reader S} {pending : S → List ℕ} {IsValid : S → Type 0}
    (stream : IsStream c pending IsValid) where
  read_to_end-whole :
      (rounds : ℕ) (body : List ℕ) (s : S)
      → length (pending s) < rounds
      → IsValid s
      → read_to_end c rounds body s ≡ body ++ pending s
  unfolding read_to_end
  read_to_end-whole zero body s enough v = absurd (omega arith)
  read_to_end-whole (suc rounds) body s enough v = elim (read-cases stream s 4096 v (omega arith)) [
    | inl (e, ended) ↦ rw (e, read_to_end, ended) (sym (append-nil body))
    | inr (b, bs, (e, order, fits, less, v')) ↦
        let s' = (c.read s 4096).1 in
        rw (e, read_to_end)
          (read_to_end-whole rounds (body ++ b ∷ bs) s' (omega arith) v'
            ∙ append_assoc body (b ∷ bs) (pending s')
            ∙ ap (◌++◌ body) (sym order))
  ]

  read_up_to-whole :
      (rounds want : ℕ) (body : List ℕ) (s : S)
      → length (pending s) < rounds
      → length body ≤ want
      → IsValid s
      → read_up_to c rounds body want s ≡ (
          if ltb (length (body ++ pending s)) want
          then none
          else some (take want (body ++ pending s)))
  unfolding read_up_to
  read_up_to-whole zero want body s enough short v = absurd (omega arith)
  read_up_to-whole (suc rounds) want body s enough short v =
      elim (Bool-cases (ltb (length body) want)) [
        | inr e ↦
            let full : want ≡ length body = ground (arith, e, short) in
            let whole = body ++ pending s in
            let not_less : ltb (length whole) want ≡ false =
              ground (arith, full, length-append body (pending s)) in
            let front = ap (λ n. take n whole) full ∙ take-append_left body (pending s) in
            rw (e, read_up_to, not_less, front) refl
        | inl more ↦
            let left : 0 < min 4096 (want - length body) = ground (arith, more) in
            elim (read-cases stream s (min 4096 (want - length body)) v left) [
              | inl (e, ended) ↦ rw (more, read_up_to, e, ended, append-nil body, more) refl
              | inr (b, bs, (e, order, fits, less, v')) ↦
                  let s' = (c.read s (min 4096 (want - length body))).1 in
                  let all = append_assoc body (b ∷ bs) (pending s') ∙ ap (◌++◌ body) (sym order) in
                  rw (more, read_up_to, e, ← all)
                    (read_up_to-whole rounds want (body ++ b ∷ bs) s' (omega arith)
                      (omega (arith, length-append body (b ∷ bs), fits)) v')
            ]
      ]

  module _ (rounds : ℕ) where
    cut_or_read :
        (want : ℕ) (body : List ℕ) (s : S)
        → length (pending s) < rounds
        → IsValid s
        → (if ltb (length body) want
            then read_up_to c rounds body want s
            else some (take want body))
          ≡ (if ltb (length (body ++ pending s)) want
              then none
              else some (take want (body ++ pending s)))
    cut_or_read want body s enough v = elim (Bool-cases (ltb (length body) want)) [
      | inl more ↦
          rw more (read_up_to-whole rounds want body s enough (omega (arith, ltb→lt _ _ more)) v)
      | inr all ↦
          let room : want ≤ length body = ground (arith, all) in
          let not_less : ltb (length (body ++ pending s)) want ≡ false =
            ground (arith, room, length-append body (pending s)) in
          rw (all, not_less, take-append_short want body (pending s) room) refl
    ]

    before_nothing : (r : Outcome (Option (List ℕ))) → before [] r ≡ r
    before_nothing (ok none) = refl
    before_nothing (ok (some xs)) = refl
    before_nothing (throw e) = refl
    before_nothing fault = refl

    by_length :
        (headers : Map (List ℕ)) (body : List ℕ) (s : S) (value : Option (List ℕ))
        → is_chunked headers ≡ false
        → headers (codes "content-length") ≡ value
        → length (pending s) < rounds
        → IsValid s
        → read_body c rounds headers body s ≡ whole_body headers (body ++ pending s)
    unfolding read_body whole_body
    by_length headers body s none plain e enough v =
        rw (plain, e, read_body, whole_body, read_to_end-whole rounds body s enough v) refl
    by_length headers body s (some value) plain e enough v = elim (Option-cases (stoul 10 value)) [
      | inl bad ↦ rw (plain, e, read_body, whole_body, bad) refl
      | inr (want, good) ↦
          rw (plain, e, read_body, whole_body, good) (ap ok (cut_or_read want body s enough v))
    ]

    read_body-whole_body :
        (headers : Map (List ℕ)) (body : List ℕ) (s : S)
        → length (body ++ pending s) < rounds
        → length (body ++ pending s) < 2 ^ 63
        → IsValid s
        → read_body c rounds headers body s ≡ whole_body headers (body ++ pending s)
    unfolding read_body whole_body
    read_body-whole_body headers body s enough short v = elim (Bool-cases (is_chunked headers)) [
      | inl chunked ↦
          rw (chunked, read_body, whole_body)
            (decode_chunked-unchunk stream rounds (body ++ pending s) enough short rounds
                (suc (length (body ++ pending s))) 0 body s [] (refl, omega arith, v) enough
                (omega arith)
              ∙ before_nothing _)
      | inr plain ↦
          by_length headers body s (headers (codes "content-length")) plain refl
            (omega (arith, length-append body (pending s))) v
    ]

    -- Over every byte stream of less than 2^63 bytes, however it cuts them into reads: with more rounds
    -- than bytes, `fetchBytes` gives what the bytes of the response, taken as a whole, say.
    pub read_response-whole_response :
        (fuel : ℕ) (accum : List ℕ) (s : S)
        → length (pending s) < fuel
        → length (accum ++ pending s) < rounds
        → length (accum ++ pending s) < 2 ^ 63
        → IsValid s
        → read_response c rounds fuel accum s ≡ whole_response (accum ++ pending s)
    unfolding read_response whole_response
    read_response-whole_response zero accum s left enough short v = absurd (omega arith)
    read_response-whole_response (suc fuel) accum s left enough short v =
        elim (Option-cases (find blank_line accum)) [
          | inr (sep, found) ↦
              let fits = find-fits blank_line accum sep found in
              let tail = drop-append_short (sep + 4) accum (pending s) (omega arith) in
              let size : length (drop (sep + 4) accum ++ pending s) ≤ length (accum ++ pending s) =
                omega (
                  arith,
                  length-drop (sep + 4) accum,
                  length-append (drop (sep + 4) accum) (pending s),
                  length-append accum (pending s),
                ) in
              let headers = parse_headers (take sep accum) in
              rw
                (
                  found,
                  read_response,
                  find-append blank_line accum (pending s) sep found,
                  whole_response,
                  take-append_short sep accum (pending s) (omega arith),
                )
                (read_body-whole_body headers (drop (sep + 4) accum) s (omega arith) (omega arith) v
                  ∙ ap (whole_body headers) (sym tail))
          | inl e₀ ↦ elim (read-cases stream s 4096 v (omega arith)) [
            | inl (e, ended) ↦
                let all = ap (◌++◌ accum) ended ∙ append-nil accum in
                rw (e₀, read_response, e, all, e₀, whole_response) refl
            | inr (b, bs, (e, order, fits, less, v')) ↦
                let s' = (c.read s 4096).1 in
                let all = append_assoc accum (b ∷ bs) (pending s') ∙ ap (◌++◌ accum) (sym order) in
                rw (e₀, read_response, e, ← all)
                  (read_response-whole_response fuel (accum ++ b ∷ bs) s' (omega arith)
                    (omega (arith, ap length all)) (omega (arith, ap length all)) v')
          ]
        ]
