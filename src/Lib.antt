-- ===== src/Lib.antt =====
-- Verification of the core logic of the web client of cloud-photo-delivery (apps/web).
--
-- Photos, of apps/web/src/features/photos: the photographer's uploads.
--   Schema, Errors, Registry are schema.ts, errors.ts and storage.ts: which files may be queued,
--   which rejections are retried and what the user reads, and the entries that survive a reload.
--   Transport is transport.ts, whose results are the answers to the queue's calls of `put`.
--   Item, Parts, Pool, Multipart are the data and the routines of uploader.ts: the item, the
--   numbers and byte ranges of the parts, `chunk`, `runPool`, and `putMultipart` on its item.
--   Queue is the class `UploadQueue`. Queue/State is its state, with the store of the item objects
--   that its map and its running calls share, by reference. Queue/Process is `process` with
--   `attempt`, cut at each `await`: a function runs a call from one `await` to the next and returns
--   the state and the `await` at which it then stands (`Await`). `fail` is the `catch`, `wake`
--   what follows `sleep`, `after_…` what follows a request, `progress_…` a progress event.
--   Queue/Actions is the public methods up to their first `await`, and `pump`; Queue/Tasks what
--   follows the awaits of `cancel`, `discard` and `reconcile`, and the `finally` of `pump`.
--   Queue/Steps puts these together: a step is a call of a method, the answer to one pending
--   request, a progress event or time passing, in any order.
--   Api is api.ts: the lists of photos and the removal of one, over the cache of queries. View is
--   upload-queue.tsx and photos-panel.tsx: what the rows of the queue show and offer. Dropzone is
--   upload-dropzone.tsx: the photos of a drop, which may hold folders.
-- Gallery, of apps/web/src/features/gallery: the guest's view.
--   Variant and UrlCache are url-cache.ts; Batch is batch-url-fetcher.ts, whose fetcher is the one
--   that the cache calls, and Batch/Serves sets it against the service that answers each call by
--   itself; Unlock is unlock.ts; Api is api.ts, whose calls carry the token of Unlock and fill the
--   caches, and types.ts, and Api/Fallback its loop over the variants of a photo; Viewer is
--   components/photo-viewer.tsx, which photo is shown.
-- Auth, of apps/web/src/lib/auth and apps/web/src/proxy.ts: the session.
--   Proxy is proxy.ts, which pages want a session; Session is session.ts, the state in the browser;
--   Api is api.ts, the calls of the API that share the session and its refreshes; a page is the
--   session and its calls, each cut at its awaits, in Api/Calls;
--   Bff is bff.ts, whose handlers answer what Session asks and keep the refresh token in the cookie
--   that Proxy looks at.
-- Client, of packages/api-client/src/client.ts: what a result of the HTTP client becomes.
-- Messages, of errors.ts in apps/web/src/lib/auth and in events and gallery of
--   apps/web/src/features: what the user reads for an error of the API.
-- Events, of apps/web/src/features/events: Api is api.ts, the queries and the pages of the options;
--   Schema is schema.ts with the requests that api.ts, event-form.tsx and status-actions.tsx make of
--   the forms' values; Format is the sizes and file names of format.ts; Export is export-card.tsx.
-- Branding, of apps/web/src/features/branding: schema.ts, and in Form the state of
--   branding-form.tsx with its submission; Asset is asset-upload.tsx, the upload of an image.
-- Query is what the hooks rely on of the cache of TanStack Query, a package: an interface that Photos
--   takes, with a cache in Query/Kept that fills it.
-- Dashboard, of apps/web/src/features: Expiry is events/format.ts, Plans is billing/format.ts,
--   Devices is devices/summary.ts and Analytics is analytics/format.ts.
--
-- A promise, an object, a controller, a waiter and a listener are named by the number under which
-- they were made. The answers of the API and of the storage provider are inputs of the steps, as is
-- time. `JSON.parse` and the guards on its result are modelled by what they find. Numbers are whole
-- numbers: sizes and times are, and progress is rounded. A `Map` or a `Set` is the list of its
-- entries in the order of insertion.
--
-- There is no fuel in the queue, since a call is cut at its awaits and each piece ends; `chunk` is
-- given as much as the list is long, which is enough for a positive size, since each round takes an
-- item. Queue/Failing runs a call whose attempts all fail on as much as the maximum of its attempts
-- and one, which is enough, since each round uses an attempt.
--
-- The packages that the web client calls are parameters: what zod takes for an email or an address,
-- the cache of queries, and the standard `toLowerCase`, with what the code relies on as hypotheses.
--
-- Not modelled: the Go services, what the React components render, hooks that only call one
-- endpoint, XMLHttpRequest, whose events are inputs, the generated API types, and texts that `Intl`
-- formats.
pub mod Prelude
pub mod Query
pub mod Events
pub mod Branding
pub mod Photos
pub mod Gallery
pub mod Auth
pub mod Dashboard
pub mod Client
pub mod Messages
