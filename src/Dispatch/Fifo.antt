-- ===== src/Dispatch/Fifo.antt =====
-- The queue of platform requests (HostPlatformRequest and engine_poll_platform_request of
-- abi/src/engine_api_dispatch.cpp): what enters it and what a poll takes out.
use aether_kiri.Prelude.{
  ℕ, ◌+◌, ◌-◌, ◌≤◌, ◌<◌, ◌≡◌, refl, sym, ◌∙◌, ap, inl, inr, false, ◌||◌, some, List, [], ◌∷◌, ◌++◌,
  Text, arith, ltb, leb, ◌==◌, length, tail, drop, length-append, Bool-cases, append-nil,
  append_assoc, map, All, subst,
}
use aether_kiri.Engine.Calls.{ok, Reply}
use aether_kiri.Dispatch.State.{Handle, World, Local, Action, pure, ◌>>=◌, run}
use aether_kiri.Dispatch.Callbacks.{push_request, host_platform_request}
use aether_kiri.Dispatch.Startup.{then_lem}
use aether_kiri.Dispatch.Queues.{poll_front, poll_request}

-- The last `n` members.
abbrev pub newest : {A : Type 0} → ℕ → List A → List A
newest n xs = drop (length xs - n) xs

drop-one :
    {A : Type 0} (xs : List A) (x : A) → 1 ≤ length xs → drop 1 (xs ++ x ∷ []) ≡ tail xs ++ x ∷ []
drop-one [] x h = ground arith
drop-one (y ∷ xs) x h = refl

-- A request goes to the end of the queue, which keeps the newest 256.
pub push_request-newest :
    (r : Text × Text) (queue : List (Text × Text))
    → length queue ≤ 256
    → push_request r queue ≡ newest 256 (queue ++ r ∷ [])
unfolding push_request
push_request-newest r queue h =
    let n = length-append queue (r ∷ []) in
    elim (Bool-cases (leb 256 (length queue))) [
      | inl e ↦
          (let over : length (queue ++ r ∷ []) - 256 ≡ 1 = ground arith in
            rw (e, over) (sym (drop-one queue r (ground arith))))
      | inr e ↦ (let over : length (queue ++ r ∷ []) - 256 ≡ 0 = ground arith in rw (e, over) refl)
    ]

abbrev pub polled : Text → Text → Reply
polled operation argument = record {
  result = ok;
  out = 1 ∷ (operation ++ (0 ∷ (argument ++ 0 ∷ [])));
}

abbrev pub reply_to : Text × Text → Reply
reply_to (operation, argument) = polled operation argument

-- A buffer pair for each request, large enough for its texts and their terminators.
abbrev pub Fits : List (ℕ × ℕ) → List (Text × Text) → Type 0
Fits [] [] = Unit
Fits ((operation_size, argument_size) ∷ sizes) ((operation, argument) ∷ requests) =
    (length operation < operation_size) × (length argument < argument_size) × Fits sizes requests
Fits _ _ = ⊥

-- The operation is not empty.
abbrev pub IsNamed : Text × Text → Type 0
IsNamed (operation, argument) = 0 < length operation

module _ {E : Type 0} where
  poll_front-oldest :
      (operation_size argument_size : ℕ) (operation argument : Text) (rest : List (Text × Text))
      (l : Local E)
      → length operation < operation_size
      → length argument < argument_size
      → run (poll_front operation_size argument_size ((operation, argument) ∷ rest)) l
        ≡ some (
          polled operation argument,
          record {
            world = record l.world { thread_error = [] };
            handle = record l.handle { platform_requests = rest };
          },
        )
  unfolding run poll_front
  poll_front-oldest operation_size argument_size operation argument rest l ho ha =
      let given : (operation_size == 0 || argument_size == 0) ≡ false = ground arith in
      let fits : (ltb operation_size (length operation + 1)
            || ltb argument_size (length argument + 1))
          ≡ false =
        ground arith in
      rw (given, fits) refl

  poll_request_lem :
      (operation_size argument_size : ℕ) (queue : List (Text × Text)) (l : Local E)
      → l.handle.platform_requests ≡ queue
      → run (poll_request operation_size argument_size) l
        ≡ run (poll_front operation_size argument_size queue) l
  unfolding run poll_request
  poll_request_lem operation_size argument_size queue l e =
      ap (λ q. run (poll_front operation_size argument_size q) l) e

  -- With buffers for both texts and their terminators, a poll takes the oldest request out of the
  -- queue, returns it whole and clears the caller's error; nothing else changes.
  pub poll_request-oldest :
      (operation_size argument_size : ℕ) (operation argument : Text) (rest : List (Text × Text))
      (l : Local E)
      → l.handle.platform_requests ≡ (operation, argument) ∷ rest
      → length operation < operation_size
      → length argument < argument_size
      → run (poll_request operation_size argument_size) l
        ≡ some (
          polled operation argument,
          record {
            world = record l.world { thread_error = [] };
            handle = record l.handle { platform_requests = rest };
          },
        )
  poll_request-oldest operation_size argument_size operation argument rest l e ho ha =
      poll_request_lem operation_size argument_size _ l e
      ∙ poll_front-oldest operation_size argument_size operation argument rest l ho ha

  -- Requests of a provider, one after another.
  unfoldable pub request_all : List (Text × Text) → Handle E → Handle E
  request_all [] h = h
  request_all ((operation, argument) ∷ rest) h =
      request_all rest (host_platform_request (some operation) (some argument) h)

  -- Polls with buffers of these sizes, and their replies.
  unfoldable pub poll_all : List (ℕ × ℕ) → Action E (List Reply)
  poll_all [] = pure []
  poll_all ((operation_size, argument_size) ∷ rest) = do
    reply ← poll_request operation_size argument_size
    replies ← poll_all rest
    pure (reply ∷ replies)

  request_one :
      (operation argument : Text) (h : Handle E)
      → 0 < length operation
      → length h.platform_requests < 256
      → host_platform_request (some operation) (some argument) h
        ≡ record h { platform_requests = h.platform_requests ++ (operation, argument) ∷ [] }
  unfolding host_platform_request push_request
  request_one [] argument h named room = ground arith
  request_one (c ∷ operation) argument h named room =
      let short : leb 256 (length h.platform_requests) ≡ false = ground arith in rw short refl

  request_all_lem :
      (requests : List (Text × Text)) (h : Handle E)
      → All IsNamed requests
      → length h.platform_requests + length requests ≤ 256
      → request_all requests h ≡ record h { platform_requests = h.platform_requests ++ requests }
  unfolding request_all
  request_all_lem [] h named room =
      ap (λ q. record h { platform_requests = q }) (sym (append-nil h.platform_requests))
  request_all_lem ((operation, argument) ∷ rest) h named room =
      ap (request_all rest) (request_one operation argument h named.0 (omega arith))
      ∙ request_all_lem rest
          (record h { platform_requests = h.platform_requests ++ (operation, argument) ∷ [] })
          named.1 (omega (arith, length-append h.platform_requests ((operation, argument) ∷ [])))
      ∙ ap (λ q. record h { platform_requests = q })
          (append_assoc h.platform_requests ((operation, argument) ∷ []) rest)

  poll_all_lem :
      (sizes : List (ℕ × ℕ)) (requests : List (Text × Text)) (w : World E) (h : Handle E)
      → Fits sizes requests
      → (w' : World E) × (run
            (poll_all sizes)
            (record { world = w; handle = record h { platform_requests = requests } })
          ≡ some (
            map reply_to requests,
            record { world = w'; handle = record h { platform_requests = [] } },
          ))
        × (w'.env ≡ w.env)
        × (w'.handles ≡ w.handles)
  unfolding poll_all run pure
  poll_all_lem [] [] w h fits = (w, refl, refl, refl)
  poll_all_lem [] (r ∷ requests) w h fits = absurd fits
  poll_all_lem (n ∷ sizes) [] w h fits = absurd fits
  poll_all_lem ((n, m) ∷ sizes) ((operation, argument) ∷ requests) w h fits =
      let (w', rest, env, handles) =
        poll_all_lem sizes requests (record w { thread_error = [] }) h fits.2 in
      let l : Local E = record {
        world = w;
        handle = record h { platform_requests = (operation, argument) ∷ requests };
      } in
      (
        w',
        then_lem (poll_request n m) (λ reply. poll_all sizes >>= λ replies. pure (reply ∷ replies))
              l _ (polled operation argument)
              (poll_request-oldest n m operation argument requests l refl fits.0 fits.1)
            ∙ then_lem (poll_all sizes) (λ replies. pure (polled operation argument ∷ replies)) _ _
                (map reply_to requests) rest,
        env,
        handles,
      )

  -- At most 256 requests with operations that are not empty, made while no request waits, are returned
  -- by as many polls, each with buffers that are large enough for its request: whole, and in the order
  -- in which they were made. Afterwards no request waits, and the rest of the handle, the outside
  -- state and the handles are as before.
  pub poll_all-request_all :
      (requests : List (Text × Text)) (sizes : List (ℕ × ℕ)) (l : Local E)
      → l.handle.platform_requests ≡ []
      → All IsNamed requests
      → length requests ≤ 256
      → Fits sizes requests
      → (w' : World E) × (run (poll_all sizes) (record l { handle = request_all requests l.handle })
          ≡ some (
            map reply_to requests,
            record { world = w'; handle = record l.handle { platform_requests = [] } },
          ))
        × (w'.env ≡ l.world.env)
        × (w'.handles ≡ l.world.handles)
  poll_all-request_all requests sizes l empty named room fits =
      let (w', rest, env, handles) = poll_all_lem sizes requests l.world l.handle fits in
      let made : request_all requests l.handle ≡ record l.handle { platform_requests = requests } =
        request_all_lem requests l.handle named (
          subst (λ q. length q + length requests ≤ 256) (sym empty)
            (let z : 0 + length requests ≤ 256 = omega arith in z))
        ∙ ap (λ q. record l.handle { platform_requests = q ++ requests }) empty in
      (w', ap (λ h. run (poll_all sizes) (record l { handle = h })) made ∙ rest, env, handles)
