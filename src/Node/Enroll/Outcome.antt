-- ===== src/Node/Enroll/Outcome.antt =====
-- What an enrollment leaves on the node.
use jw_swarm.Common.{
  String, Option, none, some, true, false, ◌≡◌, ◌≢◌, subst, refl, arith, Bool-cases, inl, inr,
  eq_iff, eq_refl,
}
use mathlib.Core.Option.{none-ne-some}
use Prim.Native.String.{◌++◌}
use jw_swarm.Common.HashMap
use jw_swarm.Common.Text.{trim_end_matches}
use jw_swarm.Common.HashMap.{HashMap, get-insert}
use jw_swarm.Enrollment.{EnrollResponse}
use jw_swarm.Node.Settings.{Config}
use jw_swarm.Node.Enroll.{
  EnrollArgs, Files, Host, Paths, paths_of, make_request, obtain, bundle, settings, is_slash, run,
  bind, body_of, write, to_wss_connect_url,
}

bind-some {ℓ κ} :
    {A : Type ℓ} {B : Type κ} (o : Option A) (f : A → Option B) (b : B)
    → bind o f ≡ some b
    → (a : A) × (o ≡ some a) × (f a ≡ some b)
bind-some none f b e = absurd (none-ne-some b e)
bind-some (some a) f b e = (a, refl, e)

write-some {ℓ} :
    {A : Type ℓ} (h : Host) (path content : String) (files : Files) (next : Files → Option A)
    (a : A)
    → write h path content files next ≡ some a
    → next (HashMap.insert files path content) ≡ some a
write-some h path content files next a = elim (Bool-cases (h.writes path)) [
  | inl t ↦ rw t (λ e. e)
  | inr f ↦ rw f (λ e. cc)
]

-- The files that the paths name are different ones, where it matters.
pub record AreDistinct (p : Paths) : Type 0 where
  pub cert-key : p.cert_path ≢ p.key_path
  pub csr-key : p.csr_path ≢ p.key_path
  pub ca-key : p.ca_path ≢ p.key_path
  pub ca-cert : p.ca_path ≢ p.cert_path
  pub pem-ca : p.node_pem_path ≢ p.ca_path

-- Settings that name the node, node.pem, ca.crt and the address of the tunnel, and are otherwise the
-- old ones.
pub record NamesEnrollment (h : Host) (args : EnrollArgs) (old new : Config) : Type 0 where
  pub node_id : new.node_id ≡ args.node_id
  pub node_cert : new.node_cert ≡ (paths_of h args).node_pem_path
  pub ca_cert : new.ca_cert ≡ (paths_of h args).ca_path
  pub fleet_url : new.fleet_url ≡ to_wss_connect_url args.base_url
  pub hostname : new.hostname ≡ old.hostname
  pub limits : new.limits ≡ old.limits
  pub schedule : new.schedule ≡ old.schedule
  pub selected_models : new.selected_models ≡ old.selected_models

-- What a successful enrollment leaves.
pub record IsEnrolled (h : Host) (args : EnrollArgs) (config : Config) (out : Files × Config)
    : Type 0 where
  pub key : String
  pub csr : String
  pub answer : EnrollResponse
  pub made : h.genrsa ≡ some key
  pub requested : h.req key ("/CN=" ++ args.node_id) ≡ some csr
  pub granted :
      body_of (
        h.enroll
          (trim_end_matches is_slash args.base_url ++ "/bootstrap/enroll")
          (record { node_id = args.node_id; token = args.token; csr_pem = csr }))
      ≡ some answer
  pub bundled :
      HashMap.get out.0 (paths_of h args).node_pem_path ≡ some (answer.node_cert_pem ++ "\n" ++ key)
  pub trusted : HashMap.get out.0 (paths_of h args).ca_path ≡ some answer.ca_cert_pem
  pub kept : args.write_config ≡ false → out.1 ≡ config
  pub saved : args.write_config ≡ true → NamesEnrollment h args config out.1

-- The certificate and the CA's, once both are written.
obtained_files :
    (p : Paths) (files : Files) (key csr ca : String) (r : EnrollResponse)
    → AreDistinct p
    → let made = HashMap.insert (HashMap.insert files p.key_path key) p.csr_path csr in
      let obtained =
        HashMap.insert
          (HashMap.insert (HashMap.insert made p.ca_path ca) p.cert_path r.node_cert_pem)
          p.ca_path
          r.ca_cert_pem in
      (HashMap.get made p.csr_path ≡ some csr)
      × (HashMap.get obtained p.key_path ≡ some key)
      × (HashMap.get obtained p.cert_path ≡ some r.node_cert_pem)
      × (HashMap.get obtained p.ca_path ≡ some r.ca_cert_pem)
obtained_files p files key csr ca r d =
    let keyed = HashMap.insert files p.key_path key in
    let made = HashMap.insert keyed p.csr_path csr in
    let booted = HashMap.insert made p.ca_path ca in
    let certified = HashMap.insert booted p.cert_path r.node_cert_pem in
    (
      ground (arith, get-insert keyed p.csr_path p.csr_path csr, eq_refl p.csr_path),
      ground (
        arith,
        get-insert certified p.ca_path p.key_path r.ca_cert_pem,
        get-insert booted p.cert_path p.key_path r.node_cert_pem,
        get-insert made p.ca_path p.key_path ca,
        get-insert keyed p.csr_path p.key_path csr,
        get-insert files p.key_path p.key_path key,
        eq_refl p.key_path,
        eq_iff p.ca_path p.key_path,
        eq_iff p.cert_path p.key_path,
        eq_iff p.csr_path p.key_path,
        d.cert-key,
        d.csr-key,
        d.ca-key,
      ),
      ground (
        arith,
        get-insert certified p.ca_path p.cert_path r.ca_cert_pem,
        get-insert booted p.cert_path p.cert_path r.node_cert_pem,
        eq_refl p.cert_path,
        eq_iff p.ca_path p.cert_path,
        d.ca-cert,
      ),
      ground (arith, get-insert certified p.ca_path p.ca_path r.ca_cert_pem, eq_refl p.ca_path),
    )

made_some :
    (h : Host) (args : EnrollArgs) (p : Paths) (files made : Files)
    → make_request h args p files ≡ some made
    → (key : String) × (csr : String) × (h.genrsa ≡ some key)
      × (h.req key ("/CN=" ++ args.node_id) ≡ some csr)
      × (HashMap.insert (HashMap.insert files p.key_path key) p.csr_path csr ≡ made)
unfolding make_request
made_some h args p files made = elim (Bool-cases h.creates_dir) [
  | inr b ↦ rw (make_request, b) (λ e. absurd (none-ne-some made e))
  | inl b ↦
      rw (make_request, b)
        (λ e.
          let (key, k, e1) = bind-some h.genrsa _ made e in
          let (csr, c, e2) = bind-some (h.req key ("/CN=" ++ args.node_id)) _ made e1 in
          (key, csr, k, c, ground (arith, e2)))
]

obtained_some :
    (h : Host) (args : EnrollArgs) (p : Paths) (files obtained : Files)
    → obtain h args p files ≡ some obtained
    → (csr : String) × (ca : String) × (r : EnrollResponse) × (HashMap.get files p.csr_path
        ≡ some csr)
      × (body_of (
            h.enroll
              (trim_end_matches is_slash args.base_url ++ "/bootstrap/enroll")
              (record { node_id = args.node_id; token = args.token; csr_pem = csr }))
          ≡ some r)
      × (HashMap.insert
            (HashMap.insert (HashMap.insert files p.ca_path ca) p.cert_path r.node_cert_pem)
            p.ca_path
            r.ca_cert_pem
          ≡ obtained)
unfolding obtain
obtained_some h args p files obtained e =
    let (csr, c, e1) = bind-some (HashMap.get files p.csr_path) _ obtained e in
    let (ca, a, e2) =
      bind-some
        (body_of (h.bootstrap_ca (trim_end_matches is_slash args.base_url ++ "/bootstrap/ca.crt")))
        _ obtained e1 in
    let last = λ (r : EnrollResponse) (fs : Files). write h p.ca_path r.ca_cert_pem fs some in
    let answered =
      λ (fs : Files) (r : EnrollResponse). write h p.cert_path r.node_cert_pem fs (last r) in
    let granted = body_of (
      h.enroll (trim_end_matches is_slash args.base_url ++ "/bootstrap/enroll")
        (record { node_id = args.node_id; token = args.token; csr_pem = csr })) in
    let booted = HashMap.insert files p.ca_path ca in
    let e3 = write-some h p.ca_path ca files (λ fs. bind granted (answered fs)) obtained e2 in
    let (r, g, e4) = bind-some granted (answered booted) obtained e3 in
    let e5 = write-some h p.cert_path r.node_cert_pem booted (last r) obtained e4 in
    let certified = HashMap.insert booted p.cert_path r.node_cert_pem in
    let e6 = write-some h p.ca_path r.ca_cert_pem certified some obtained e5 in
    (csr, ca, r, c, g, ground (arith, e6))

bundled_some :
    (h : Host) (p : Paths) (files bundled : Files) (cert key : String)
    → HashMap.get files p.cert_path ≡ some cert
    → HashMap.get files p.key_path ≡ some key
    → bundle h p files ≡ some bundled
    → HashMap.insert files p.node_pem_path (cert ++ "\n" ++ key) ≡ bundled
unfolding bundle
bundled_some h p files bundled cert key c k =
    rw (bundle, c, k)
      (λ e. ground (arith, write-some h p.node_pem_path (cert ++ "\n" ++ key) files some bundled e))

-- An enrollment that succeeds has had the key and the request from openssl, has sent this request
-- with the token to the Fleet Manager, and leaves in node.pem the certificate of its answer and
-- the key, and in ca.crt the CA certificate of its answer. If settings are to be written, they name
-- these two files, the node and the address of the tunnel and are otherwise the old ones; if not,
-- they stay. The paths must be different, which they are not for a node called "ca".
pub run-IsEnrolled :
    (h : Host) (args : EnrollArgs) (files : Files) (config : Config) (out : Files × Config)
    → AreDistinct (paths_of h args)
    → run h args files config ≡ some out
    → IsEnrolled h args config out
unfolding run make_request obtain bundle
run-IsEnrolled h args files config out d e =
    let p = paths_of h args in
    let (made, m, e1) = bind-some (make_request h args p files) _ out e in
    let (obtained, o, e2) = bind-some (obtain h args p made) _ out e1 in
    let (bundled, b, e3) = bind-some (bundle h p obtained) _ out e2 in
    let (key, csr, k, c, same) = made_some h args p files made m in
    let (csr', ca, r, read, granted, same') = obtained_some h args p made obtained o in
    let (sent, kept, cert, trust) = obtained_files p files key csr ca r d in
    let one : csr' ≡ csr = ground (arith, same, sent, read) in
    let kept' : HashMap.get obtained p.key_path ≡ some key = ground (arith, same, same', kept) in
    let cert' : HashMap.get obtained p.cert_path ≡ some r.node_cert_pem =
      ground (arith, same, same', cert) in
    let trust' : HashMap.get obtained p.ca_path ≡ some r.ca_cert_pem =
      ground (arith, same, same', trust) in
    let pem = r.node_cert_pem ++ "\n" ++ key in
    let whole : HashMap.insert obtained p.node_pem_path pem ≡ bundled =
      bundled_some h p obtained bundled r.node_cert_pem key cert' kept' b in
    record {
      key = key;
      csr = csr;
      answer = r;
      made = k;
      requested = c;
      granted =
          subst
            (λ x.
              body_of (
                h.enroll (trim_end_matches is_slash args.base_url ++ "/bootstrap/enroll")
                  (record { node_id = args.node_id; token = args.token; csr_pem = x }))
              ≡ some r)
            one granted;
      bundled = ground (
        arith,
        e3,
        whole,
        get-insert obtained p.node_pem_path p.node_pem_path pem,
        eq_refl p.node_pem_path,
      );
      trusted = ground (
        arith,
        e3,
        whole,
        trust',
        get-insert obtained p.node_pem_path p.ca_path pem,
        eq_iff p.node_pem_path p.ca_path,
        d.pem-ca,
      );
      kept = λ w. ground (arith, e3, w);
      saved = λ w.
          let new : settings args (paths_of h args) config ≡ out.1 = ground (arith, e3, w) in
          subst (NamesEnrollment h args config) new (record {
            node_id = refl;
            node_cert = refl;
            ca_cert = refl;
            fleet_url = refl;
            hostname = refl;
            limits = refl;
            schedule = refl;
            selected_models = refl;
          });
    }
