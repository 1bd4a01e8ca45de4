-- ===== src/Hub/Dispatch/Signing.antt =====
-- crates/fabric-hub/src/routes/tasks.rs: which parts of a dispatch the signed envelope has.
use forgewire_fabric.Prelude.{◌≡◌, refl, ap, true, some, List, [], ◌∷◌, Text, text, All, if_ind}
use forgewire_fabric.Prelude.Json.{Json, scalar, bool, number, string_value}
use forgewire_fabric.Hub.Claims.{or_blank}
use forgewire_fabric.Hub.Dispatch.{
  SignedDispatchPayload, DispatchLibraries, opt_value, texts_value, or_default_texts, env_keys,
  has_signed_command, dispatch_envelope,
}
use forgewire_fabric.Hub.Dispatch.Params.{field_of}

module _ {N E K : Type 0} (libraries : DispatchLibraries N E K)
    (p : SignedDispatchPayload N libraries.float.F) where
  open libraries use {from_i64, float, from_f64}

  -- A member of an object.
  abbrev pub HasField : Json N → Text × Json N → Type 0
  HasField envelope e = field_of envelope e.0 ≡ some e.1

  -- What every dispatch signs.
  abbrev pub signed_parts : List (Text × Json N)
  signed_parts =
      (text "op", string_value (text "dispatch"))
      ∷ (text "dispatcher_id", string_value p.dispatcher_id)
      ∷ (text "title", string_value p.base.title)
      ∷ (text "prompt", string_value p.base.prompt)
      ∷ (text "scope_globs", texts_value p.base.scope_globs)
      ∷ (text "base_commit", string_value p.base.base_commit)
      ∷ (text "branch", string_value p.base.branch)
      ∷ (text "todo_id", opt_value string_value p.base.todo_id)
      ∷ (text "timeout_minutes", scalar (number (from_i64 p.base.timeout_minutes)))
      ∷ (text "priority", scalar (number (from_i64 p.base.priority)))
      ∷ (text "metadata", p.base.metadata)
      ∷ (text "required_tools", opt_value texts_value p.base.required_tools)
      ∷ (text "required_tags", opt_value texts_value p.base.required_tags)
      ∷ (text "required_capabilities", opt_value texts_value p.base.required_capabilities)
      ∷ (text "secrets_needed", opt_value texts_value p.base.secrets_needed)
      ∷ (text "network_egress", opt_value (λ v. v) p.base.network_egress)
      ∷ (text "tenant", opt_value string_value p.base.tenant)
      ∷ (text "workspace_root", opt_value string_value p.base.workspace_root)
      ∷ (text "require_base_commit", scalar (bool p.base.require_base_commit))
      ∷ (text "kind", string_value p.base.kind)
      ∷ (text "max_cost_usd", opt_value (λ c. scalar (from_f64 c)) p.base.max_cost_usd)
      ∷ (text "timestamp", scalar (number (from_i64 p.timestamp)))
      ∷ (text "nonce", string_value p.nonce)
      ∷ []

  -- What a command signs besides: its argv, its directory, and the names and the digest of its
  -- environment.
  abbrev pub SignsCommand : Json N → List Text → Text → Type 0
  SignsCommand envelope argv digest =
      HasField envelope (text "loom_command", texts_value argv)
      × HasField envelope (text "loom_cwd", string_value (or_blank p.base.cwd))
      × HasField envelope (text "loom_env_keys", texts_value (env_keys p.base.env))
      × HasField envelope (text "loom_env_digest", string_value digest)

  pub envelope_parts : All (HasField (dispatch_envelope libraries p)) signed_parts
  envelope_parts =
      if_ind (λ v. All (HasField v) signed_parts) (has_signed_command libraries p) _ _
        (λ h. (
          refl,
          (
            refl,
            (
              refl,
              (
                refl,
                (
                  refl,
                  (
                    refl,
                    (
                      refl,
                      (
                        refl,
                        (
                          refl,
                          (
                            refl,
                            (
                              refl,
                              (
                                refl,
                                (
                                  refl,
                                  (
                                    refl,
                                    (
                                      refl,
                                      (
                                        refl,
                                        (refl, (refl, (refl, (refl, (refl, (refl, (refl, tt))))))),
                                      ),
                                    ),
                                  ),
                                ),
                              ),
                            ),
                          ),
                        ),
                      ),
                    ),
                  ),
                ),
              ),
            ),
          ),
        ))
        (λ h. (
          refl,
          (
            refl,
            (
              refl,
              (
                refl,
                (
                  refl,
                  (
                    refl,
                    (
                      refl,
                      (
                        refl,
                        (
                          refl,
                          (
                            refl,
                            (
                              refl,
                              (
                                refl,
                                (
                                  refl,
                                  (
                                    refl,
                                    (
                                      refl,
                                      (
                                        refl,
                                        (refl, (refl, (refl, (refl, (refl, (refl, (refl, tt))))))),
                                      ),
                                    ),
                                  ),
                                ),
                              ),
                            ),
                          ),
                        ),
                      ),
                    ),
                  ),
                ),
              ),
            ),
          ),
        ))

  pub envelope-SignsCommand :
      (argv : List Text) (digest : Text)
      → has_signed_command libraries p ≡ true
      → p.base.command ≡ some argv
      → p.base.loom_env_digest ≡ some digest
      → SignsCommand (dispatch_envelope libraries p) argv digest
  envelope-SignsCommand argv digest h c d =
      if_ind (λ v. SignsCommand v argv digest) (has_signed_command libraries p) _ _
        (λ t. (
          ap (λ o. some (texts_value (or_default_texts o))) c,
          refl,
          refl,
          ap (λ o. some (opt_value string_value o)) d,
        ))
        (λ f. cc (h, f))
