-- ===== src/Client/Handles/Commands.antt =====
-- What the commands and inquiries of src/mqclient.cpp do to the handles that are open.
use ibmmq_metrics_exporter.Base.{
  ℕ, zero, suc, ◌+◌, true, false, not, ◌||◌, List, [], ◌∷◌, replicate, Option, none, some,
  if◌then◌else◌, codes, is_same, arith,
}
use ibmmq_metrics_exporter.Memory.{Result, Bytes}
use ibmmq_metrics_exporter.Pcf.Fold.{is_empty}
use ibmmq_metrics_exporter.Client.Mqi.{
  Mqi, has_failed, mqoo_input_exclusive, mqoo_output, mqoo_inquire, mqco_delete_purge, write_front,
  read_buffer,
}
use ibmmq_metrics_exporter.Client.Buffers.{publication_size}
use ibmmq_metrics_exporter.Client.State.{ClientState, System, Method, pure, attempt, lift, ◌>>=◌}
use ibmmq_metrics_exporter.Client.Connection.{
  open_queue, open_dynamic_queue, close_object, close_queue,
}
use ibmmq_metrics_exporter.Client.Inquiries.{inquire_at, inquire}
use ibmmq_metrics_exporter.Client.Topics.{model_queue}
use ibmmq_metrics_exporter.Client.Commands.{
  reply_options, command_desc, is_last, command_queue, responses_loop, put_command, finish_command,
  command_with, send_pcf_command, ask,
}
use ibmmq_metrics_exporter.Client.Handles.{Resource, counts, HandleLaws, At}
use ibmmq_metrics_exporter.Client.Ends.{
  Throws, Ends, Ends-bind, Ends-attempt, Ends-if, Ends-elim, Ends-map, Ends-lift, Ends-lift_bind,
}
use ibmmq_metrics_exporter.Client.Handles.Opening.{
  open_queue-Ends, open_dynamic_queue-Ends, close_object-Ends, close_queue-Ends,
}

read_buffer_silent :
    {W : Type 0} (buffer : Bytes) (datalen : ℕ) (x : System W → Type 0)
    → Throws (read_buffer publication_size buffer datalen)
    → (σ : System W) → x σ
unfolding read_buffer
read_buffer_silent buffer datalen x f σ = ground (arith, f)

module _ {W : Type 0} (mqi : Mqi W) (opened : W → Resource → ℕ) (laws : HandleLaws mqi opened)
    (r : Resource) (c : ClientState) (x : System W → Type 0) where
  responses_loop-Ends :
      (b i hobj : ℕ) (buffer : Bytes) (σ : System W)
      → At opened r c b σ
      → Ends (λ a. At opened r c b) x (responses_loop mqi i hobj buffer σ)
  unfolding responses_loop
  responses_loop-Ends b zero hobj buffer σ h = h
  responses_loop-Ends b (suc i) hobj buffer σ (e, h) =
      let p = mqi.mqget σ.client.hconn hobj reply_options publication_size σ.world in
      let g = p.0 in
      let buffer' = write_front publication_size g.written buffer in
      let σ' : System W = record σ { world = p.1 } in
      let quiet = laws.mqget_quiet σ.client.hconn hobj reply_options publication_size σ.world r in
      let h' : At opened r c b σ' = (e, omega (arith, h, quiet)) in
      let next : Bytes → Method W (List Bytes) = λ response. elim (is_last g.datalen buffer') [
        | true ↦ pure (response ∷ [])
        | false ↦ responses_loop mqi i hobj buffer' >>= λ responses. pure (response ∷ responses)
      ] in
      Ends-if (λ a. At opened r c b) x (has_failed g.cc) (pure [])
        (lift (read_buffer publication_size buffer' g.datalen) >>= next) σ' (λ f. h')
        (λ f.
          Ends-lift_bind (λ a. At opened r c b) x (read_buffer publication_size buffer' g.datalen)
            next σ'
            (λ response.
              Ends-elim (λ a. At opened r c b) x (is_last g.datalen buffer') (pure (response ∷ []))
                (responses_loop mqi i hobj buffer' >>= λ responses. pure (response ∷ responses)) σ'
                h'
                (Ends-map (λ a. At opened r c b) x (responses_loop mqi i hobj buffer')
                  (λ responses. response ∷ responses) σ'
                  (responses_loop-Ends b i hobj buffer' σ' h')))
            (λ f. read_buffer_silent buffer' g.datalen x f σ'))

  -- The handle of the command queue is given back.
  put_command-Ends :
      (b : ℕ) (reply_name : Bytes) (reply_hobj cmd_hobj : ℕ) (cmd : Bytes) (σ : System W)
      → At opened r c (b + counts cmd_hobj r) σ
      → Ends (λ a. At opened r c b) x (put_command mqi reply_name reply_hobj cmd_hobj cmd σ)
  unfolding put_command
  put_command-Ends b reply_name reply_hobj cmd_hobj cmd σ (e, h) =
      let p = mqi.mqput σ.client.hconn cmd_hobj (command_desc reply_name) cmd σ.world in
      let quiet =
        laws.mqput_quiet σ.client.hconn cmd_hobj (command_desc reply_name) cmd σ.world r in
      let buffer : Bytes = replicate publication_size 0 in
      Ends-bind (λ a. At opened r c b) (λ a. At opened r c b) x (close_queue mqi cmd_hobj)
        (λ a. if has_failed p.0.cc then pure [] else responses_loop mqi 1000 reply_hobj buffer)
        (record σ { world = p.1 })
        (close_queue-Ends mqi opened laws r c b x cmd_hobj _ (e, omega (arith, h, quiet)))
        (λ a σ' k.
          Ends-if (λ a. At opened r c b) x (has_failed p.0.cc) (pure [])
            (responses_loop mqi 1000 reply_hobj buffer) σ' (λ f. k)
            (λ f. responses_loop-Ends b 1000 reply_hobj buffer σ' k))

  finish_command-Ends :
      (b : ℕ) (cmd : Bytes) (reply : ℕ × Bytes) (found : Option ℕ) (σ : System W)
      → At opened r c (b + counts reply.0 r + elim found [ none ↦ 0 | some h ↦ counts h r ]) σ
      → Ends (λ a. At opened r c b) x (finish_command mqi cmd reply found σ)
  unfolding finish_command
  finish_command-Ends b cmd reply none σ (e, h) =
      Ends-map {B = List Bytes} (λ a. At opened r c b) x
        (close_object mqi reply.0 mqco_delete_purge) (λ a. []) σ
        (close_object-Ends mqi opened laws r c b x reply.0 mqco_delete_purge σ
          (e, omega (arith, h)))
  finish_command-Ends b cmd reply (some cmd_hobj) σ h =
      Ends-bind (λ a. At opened r c (b + counts reply.0 r)) (λ a. At opened r c b) x
        (put_command mqi reply.1 reply.0 cmd_hobj cmd)
        (λ responses. (close_object mqi reply.0 mqco_delete_purge >>= λ a. pure responses)) σ
        (put_command-Ends (b + counts reply.0 r) reply.1 reply.0 cmd_hobj cmd σ h)
        (λ responses σ' k.
          Ends-map (λ a. At opened r c b) x (close_object mqi reply.0 mqco_delete_purge)
            (λ a. responses) σ'
            (close_object-Ends mqi opened laws r c b x reply.0 mqco_delete_purge σ' k))

  command_with-Ends :
      (b : ℕ) (cmd : Bytes) (reply : ℕ × Bytes) (σ : System W)
      → At opened r c (b + counts reply.0 r) σ
      → Ends (λ a. At opened r c b) x (command_with mqi cmd reply σ)
  unfolding command_with finish_command
  command_with-Ends b cmd reply σ (e, h) =
      let b' = b + counts reply.0 r in
      Ends-if (λ a. At opened r c b) x (is_empty reply.1 || is_same reply.1 model_queue)
        (close_object mqi reply.0 mqco_delete_purge >>= λ a. pure [])
        (attempt (open_queue mqi command_queue mqoo_output) >>= finish_command mqi cmd reply) σ
        (λ f. finish_command-Ends b cmd reply none σ (e, omega (arith, h)))
        (λ f.
          Ends-attempt (λ h. At opened r c (b' + counts h r)) (λ a. At opened r c b) x
            (At opened r c b') (open_queue mqi command_queue mqoo_output)
            (finish_command mqi cmd reply) σ
            (open_queue-Ends mqi opened laws r c b' command_queue mqoo_output σ (e, h))
            (λ σ' (e', h'). finish_command-Ends b cmd reply none σ' (e', omega (arith, h')))
            (λ cmd_hobj σ'. finish_command-Ends b cmd reply (some cmd_hobj) σ'))

  -- A command leaves nothing behind. With a library that keeps the laws of the handles, if the members
  -- are `c` and a resource is held at most `b` times before `send_pcf_command`, then, unless it reads
  -- outside a buffer, it returns with the members `c` and the resource held at most `b` times, on
  -- every path; no exception leaves it, since `x`, which would hold after one, is any condition.
  pub send_pcf_command-Ends :
      (b : ℕ) (cmd : Bytes) (σ : System W)
      → At opened r c b σ
      → Ends (λ a. At opened r c b) x (send_pcf_command mqi cmd σ)
  unfolding send_pcf_command
  send_pcf_command-Ends b cmd σ h =
      let open_reply =
        open_dynamic_queue mqi model_queue mqoo_input_exclusive (codes "EXPORTER.*") in
      let next : Option (ℕ × Bytes) → Method W (List Bytes) =
        λ made. elim made [ none ↦ pure [] | some reply ↦ command_with mqi cmd reply ] in
      Ends-if (λ a. At opened r c b) x (not σ.client.connected) (pure [])
        (attempt open_reply >>= next) σ (λ f. h)
        (λ f.
          Ends-attempt (λ q. At opened r c (b + counts q.0 r)) (λ a. At opened r c b) x
            (At opened r c b) open_reply next σ
            (open_dynamic_queue-Ends mqi opened laws r c b model_queue mqoo_input_exclusive
              (codes "EXPORTER.*") σ h)
            (λ σ' k. k) (λ reply σ'. command_with-Ends b cmd reply σ'))

module _ {W : Type 0} (mqi : Mqi W) (opened : W → Resource → ℕ) (laws : HandleLaws mqi opened)
    (r : Resource) (c : ClientState) (b : ℕ) where
  pub ask-Ends :
      {A : Type 0} (cmd : Bytes) (parse : List Bytes → Result A) (σ : System W)
      → At opened r c b σ
      → Ends (λ a. At opened r c b) (At opened r c b) (ask mqi cmd parse σ)
  ask-Ends cmd parse σ h =
      Ends-bind (λ a. At opened r c b) (λ a. At opened r c b) (At opened r c b)
        (send_pcf_command mqi cmd) (λ responses. lift (parse responses)) σ
        (send_pcf_command-Ends mqi opened laws r c (At opened r c b) b cmd σ h)
        (λ responses σ' k.
          Ends-lift (λ a. At opened r c b) (At opened r c b) (parse responses) σ' (λ a. k) k)

  inquire_at-Ends :
      (selectors : List ℕ) (found : Option ℕ) (σ : System W)
      → At opened r c (b + elim found [ none ↦ 0 | some h ↦ counts h r ]) σ
      → Ends (λ a. At opened r c b) (At opened r c b) (inquire_at mqi selectors found σ)
  unfolding inquire_at
  inquire_at-Ends selectors none σ (e, h) = (e, omega (arith, h))
  inquire_at-Ends selectors (some hobj) σ (e, h) =
      let p = mqi.mqinq σ.client.hconn hobj selectors σ.world in
      Ends-map (λ a. At opened r c b) (At opened r c b) (close_queue mqi hobj) (λ a. some p.0)
        (record σ { world = p.1 })
        (close_queue-Ends mqi opened laws r c b (At opened r c b) hobj _
          (e, omega (arith, h, laws.mqinq_quiet σ.client.hconn hobj selectors σ.world r)))

  pub inquire-Ends :
      (name : Bytes) (selectors : List ℕ) (σ : System W)
      → At opened r c b σ
      → Ends (λ a. At opened r c b) (At opened r c b) (inquire mqi name selectors σ)
  unfolding inquire
  inquire-Ends name selectors σ h =
      Ends-if (λ a. At opened r c b) (At opened r c b) (not σ.client.connected) (pure none)
        (attempt (open_queue mqi name mqoo_inquire) >>= inquire_at mqi selectors) σ (λ f. h)
        (λ f.
          Ends-attempt (λ h. At opened r c (b + counts h r)) (λ a. At opened r c b)
            (At opened r c b) (At opened r c b) (open_queue mqi name mqoo_inquire)
            (inquire_at mqi selectors) σ
            (open_queue-Ends mqi opened laws r c b name mqoo_inquire σ h)
            (λ σ' (e', h'). inquire_at-Ends selectors none σ' (e', omega (arith, h')))
            (λ hobj σ'. inquire_at-Ends selectors (some hobj) σ'))
