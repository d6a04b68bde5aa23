-- ===== src/Lib.antt =====
-- csghub-server, a hub for models, datasets and spaces: its core logic, and what makes it correct.
--
-- The parts, and the files that model them:
--   * Deploy: the engine that builds and runs spaces and models. Deploy/Store and Deploy/Hub have
--     the tables of deploys and tasks (builder/store/database/deploy_task.go). Deploy/Deployer
--     starts and updates a deploy, shows its state, checks resources and publishes metering events
--     (builder/deploy/deployer.go). Deploy/Scheduler picks the tasks, in its children with the
--     channel and the goroutines as a step relation (builder/deploy/scheduler/scheduler.go).
--     Deploy/Build and Deploy/Run are the two kinds of task (builder_runner.go and
--     deploy_runner.go there), with Deploy/Request for what the image runner is asked, Deploy/Repo
--     for their shared data, and Deploy/Status for the status codes. Deploy/AppName names the
--     services (builder/deploy/common/appname.go), Deploy/CloneUrl the addresses of a repository
--     (common/utils/common/repo.go).
--   * Metering: the accounting service, which reads the events that the deployer publishes
--     (accounting/consumer/metering.go) and books them (accounting/component/metering.go).
--   * Org: the members of organizations (user/component/member.go), with their table
--     (builder/store/database/member.go) and their roles (builder/git/membership/role.go).
--   * Tags: the tags of repositories: the table (builder/store/database/tag.go), the parsers
--     (component/tagparser) and the component (component/tag.go).
--   * Likes: the likes of repositories and collections (builder/store/database/user_like.go), with
--     statements that run in a transaction and ones that do not.
--   * Mirror: the synchronisation of one mirrored repository (mirror/reposyncer/local_woker.go), and
--     in Mirror/Queue the queue of the mirrors, with what fills and what empties it
--     (mirror/queue/queue.go, mirror/prioriy_queue.go).
--   * Repos: the repositories. Repos/Store has the tables and the git server as the list of its calls
--     (builder/store/database/repository.go), Repos/Access the rights of a user, Repos/Manage
--     creating, updating and deleting, Repos/Files the files, with LFS, Repos/Deploys the deploys
--     of a repository, Repos/Related the related ones, Repos/Mirrors the mirrors (all
--     component/repo.go), Repos/Git pulls and pushes, with the objects and the locks of LFS
--     (component/git_http.go, component/internal.go).
--   * Moderation: the checks for sensitive content. Moderation/Words has the automaton of the
--     sensitive words (moderation/checker/local_sensitive_word_checker.go), Moderation/Green the
--     checks of texts and images by a service of Aliyun (builder/sensitive/aliyun_green.go),
--     Moderation/Files the checkers of files (moderation/checker), Moderation/Checks the check of
--     the files of a repository in batches and the status that the checks come to
--     (moderation/component, builder/store/database/repository_file.go and
--     repository_file_check.go). Moderation/Runes decodes UTF-8 as `range` over a string does.
--   * Prelude: lists, texts, integers, maps and tests that all of these share.
--
-- How they interact: `Deploy` inserts a build task and a run task and tells the scheduler, whose
-- `next` picks tasks by their keys and gives the runners to its channel; a runner asks its service
-- in a loop and writes task and deploy in one transaction. The deployer meters the services that the
-- runner lists; Metering/Event is the event that both sides share. `Repos` starts and updates deploys
-- by the deployer of `Deploy`, and takes the roles of members as `Org` knows them. A checker of a
-- text file in `Moderation` asks the automaton first and then the service, block by block; its
-- verdict is stored as the check of the file, and one that fails makes the repository private.
--
-- How the code is read:
--   * A function that changes the state takes it and returns it. A call of a store, of the git server
--     or of another service is an argument that says how it is answered; a call that fails changes
--     nothing, and a transaction that fails changes nothing at all.
--   * A polling loop runs over the list of the rounds that are observed, so it needs no fuel: a result
--     of `polling`, or a second component that says so, means that the loop has not ended by then.
--   * The loop of CheckRepoFiles runs on fuel; one round more than there are files is enough, since
--     each round but the last one goes behind a file. The loops that cut a text into parts run on
--     the length of the text, since a part that is cut off is not empty.
--   * The sorted set of Redis is a record with the laws that its two commands are documented to have;
--     Mirror/Queue/Examples has a list that obeys them.
--   * Ids, counts and clocks (in seconds) are natural numbers, `int` is `ℤ` where a value may be
--     negative. A text is the list of its bytes; case folding is that of ASCII, and for the extensions
--     of files that are checked that of `strings.EqualFold`. The arithmetic of the service names
--     wraps around at 2 ^ 64 as in the source.
--   * A map of Go is an association list. A pointer that may be nil is an option. A panic is a result.
--   * Operations on repositories check first and act then: `checked` leaves the world alone if a check
--     ends with an error. Which calls fail is a function of the call, so that one call has one outcome
--     in an operation.
--   * A file that is checked gives its bytes and then ends or fails, or cannot be opened; its first
--     512 bytes come in one read. What Aliyun answers, with the codes that the source does not look
--     at, and the type of a content are parameters; a rate is read as whether it is 0.8 at least.
--     The map of the labels of an image gives them in any order, here that of the last ones.
--   * JSON, YAML, base64, SHA-256, the patterns of file names, the decimal format of keys, floating
--     point, and the parser of addresses are parameters. Logging is left out, as are the columns of
--     time stamps.
--
-- Not modelled: HTTP handlers, routers and middleware, the clients of the git servers, of Redis, S3,
-- NATS and Kubernetes, the migrations, and the other components and stores; of the moderation the
-- recording of the files of a repository, which walks through its folders in goroutines, and the
-- decoding of the list of the words.
pub mod Prelude
pub mod Deploy
pub mod Org
pub mod Metering
pub mod Tags
pub mod Likes
pub mod Mirror
pub mod Repos
pub mod Moderation
